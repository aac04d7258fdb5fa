-- ===== src/EnvFile/Lines.antt =====
-- Which entries and which error a file gives, from what its lines give.
use process_deck.Base.{
  ℕ, ◌+◌, ◌≡◌, refl, sym, List, [], ◌∷◌, ◌++◌, Option, none, some, append-nil, append_assoc, arith,
  length, ap, subst, ◌∙◌,
}
use process_deck.Base.Result.{Result, ok, err, result_ind}
use process_deck.Base.Text.{Text}
use process_deck.EnvFile.{
  FileError, read_failed, bad_line, LineError, Unquote, parse_env_file_line, parse_lines,
  parse_env_file,
}

-- The entries of lines that are all well formed, in their order.
pub data Reads (unquote : Unquote) : List Text → List Text → Type 0 where
  nothing : Reads unquote [] []
  skipped :
      {line : Text} {lines entries : List Text}
      → parse_env_file_line unquote line ≡ ok none
      → Reads unquote lines entries
      → Reads unquote (line ∷ lines) entries
  found :
      {line entry : Text} {lines entries : List Text}
      → parse_env_file_line unquote line ≡ ok (some entry)
      → Reads unquote lines entries
      → Reads unquote (line ∷ lines) (entry ∷ entries)

-- The first malformed line, behind well-formed ones.
pub record FirstBad (unquote : Unquote) (lines : List Text) (number : ℕ) (e : LineError)
    : Type 0 where
  pub front : List Text
  pub line : Text
  pub behind : List Text
  pub entries : List Text
  pub splits : lines ≡ front ++ line ∷ behind
  pub front_read : Reads unquote front entries
  pub fails : parse_env_file_line unquote line ≡ err e
  pub counted : number ≡ length front + 1

-- Why the parse of `lines` behind `seen` others, with the entries `old`, has its result.
pub data Explains (unquote : Unquote) (source : Text) (seen : ℕ) (old lines : List Text)
    : Option Text → Result FileError (List Text) → Type 0 where
  all_read :
      {entries : List Text}
      → Reads unquote lines entries
      → Explains unquote source seen old lines none (ok (old ++ entries))
  unreadable :
      {entries : List Text} {reason : Text}
      → Reads unquote lines entries
      → Explains unquote source seen old lines (some reason) (err (read_failed source reason))
  malformed :
      {failure : Option Text} (number : ℕ) {e : LineError}
      → FirstBad unquote lines number e
      → Explains unquote source seen old lines failure (err (bad_line source (seen + number) e))

-- The entries of one line.
abbrev here : Option Text → List Text
here none = []
here (some entry) = entry ∷ []

Reads-cons :
    {unquote : Unquote} {line : Text} {lines entries : List Text} (entry : Option Text)
    → parse_env_file_line unquote line ≡ ok entry
    → Reads unquote lines entries
    → Reads unquote (line ∷ lines) (here entry ++ entries)
Reads-cons none p reads = skipped p reads
Reads-cons (some entry) p reads = found p reads

module _ (unquote : Unquote) (source : Text) where
  module _ {line : Text} (entry : Option Text)
      (p : parse_env_file_line unquote line ≡ ok entry) where
    FirstBad-cons :
        {lines : List Text} {number : ℕ} {e : LineError}
        → FirstBad unquote lines number e
        → FirstBad unquote (line ∷ lines) (number + 1) e
    FirstBad-cons b = record {
      front = line ∷ b.front;
      line = b.line;
      behind = b.behind;
      entries = here entry ++ b.entries;
      splits = ap (λ l. line ∷ l) b.splits;
      front_read = Reads-cons entry p b.front_read;
      fails = b.fails;
      counted = omega (arith, b.counted);
    }

    Explains-cons :
        {seen : ℕ} {old lines : List Text} {failure : Option Text}
        {result : Result FileError (List Text)}
        → Explains unquote source (seen + 1) (old ++ here entry) lines failure result
        → Explains unquote source seen old (line ∷ lines) failure result
    Explains-cons {seen = seen} {old = old} {lines = lines} (all_read {entries} reads) =
        subst (λ es. Explains unquote source seen old (line ∷ lines) none (ok es))
          (sym (append_assoc old (here entry) entries)) (all_read (Reads-cons entry p reads))
    Explains-cons (unreadable reads) = unreadable (Reads-cons entry p reads)
    Explains-cons {seen = seen} {old = old} {lines = lines} (malformed {failure} number {e} bad) =
        subst
          (λ n. Explains unquote source seen old (line ∷ lines) failure (err (bad_line source n e)))
          (let eq : seen + (number + 1) ≡ seen + 1 + number = omega arith in eq)
          (malformed (number + 1) (FirstBad-cons bad))

  parse_lines-Explains :
      (seen : ℕ) (old lines : List Text) (failure : Option Text)
      → Explains unquote source seen old lines failure
          (parse_lines unquote source seen old lines failure)
  unfolding parse_lines
  parse_lines-Explains seen old [] none =
      subst (λ es. Explains unquote source seen old [] none (ok es)) (append-nil old)
        (all_read nothing)
  parse_lines-Explains seen old [] (some reason) = unreadable nothing
  parse_lines-Explains seen old (line ∷ lines) failure =
      result_ind (Explains unquote source seen old (line ∷ lines) failure)
        (parse_env_file_line unquote line)
        (λ e fails. malformed 1 (record {
          front = [];
          line = line;
          behind = lines;
          entries = [];
          splits = refl;
          front_read = nothing;
          fails = fails;
          counted = refl;
        }))
        (λ entry p. continue entry p (λ o. parse_lines-Explains (seen + 1) o lines failure))
    where
      continue :
          (entry : Option Text)
          → parse_env_file_line unquote line ≡ ok entry
          → ((o : List Text)
              → Explains unquote source
                  (seen + 1)
                  o
                  lines
                  failure
                  (parse_lines unquote source (seen + 1) o lines failure))
          → Explains unquote source seen old (line ∷ lines) failure (elim entry [
            | none ↦ parse_lines unquote source (seen + 1) old lines failure
            | some e ↦ parse_lines unquote source (seen + 1) (old ++ e ∷ []) lines failure
          ])
      continue none p rest = Explains-cons none p (
          subst
            (λ o.
              Explains unquote source (seen + 1) o lines failure
                (parse_lines unquote source (seen + 1) old lines failure))
            (sym (append-nil old)) (rest old))
      continue (some e) p rest = Explains-cons (some e) p (rest (old ++ e ∷ []))

-- The result of reading an environment file: all entries of well-formed lines in their order, or an
-- error that names the first malformed line, or the failure to read on behind well-formed lines.
pub parse_env_file-Explains :
    (unquote : Unquote) (lines : List Text) (failure : Option Text) (source : Text)
    → Explains unquote source 0 [] lines failure (parse_env_file unquote lines failure source)
unfolding parse_env_file
parse_env_file-Explains unquote lines failure source =
    parse_lines-Explains unquote source 0 [] lines failure

parse_lines-Reads :
    {unquote : Unquote} {lines entries : List Text} (source : Text) (seen : ℕ) (old : List Text)
    → Reads unquote lines entries
    → parse_lines unquote source seen old lines none ≡ ok (old ++ entries)
unfolding parse_lines
parse_lines-Reads source seen old nothing = rw (append-nil old)
parse_lines-Reads source seen old (skipped p reads) =
    rw (p, parse_lines) (parse_lines-Reads source (seen + 1) old reads)
parse_lines-Reads source seen old (found {entry = entry} {entries = entries} p reads) =
    rw (p, parse_lines)
      (parse_lines-Reads source (seen + 1) (old ++ entry ∷ []) reads
        ∙ ap ok (append_assoc old (entry ∷ []) entries))

pub parse_env_file-Reads :
    {unquote : Unquote} {lines entries : List Text} (source : Text)
    → Reads unquote lines entries
    → parse_env_file unquote lines none source ≡ ok entries
unfolding parse_env_file
parse_env_file-Reads source reads = parse_lines-Reads source 0 [] reads
