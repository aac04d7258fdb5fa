-- ===== src/EnvFile.antt =====
-- internal/process/env_file.go. `strconv.Unquote`, `filepath.IsAbs`, `filepath.Join` and the reading of
-- a file are arguments: a file is its lines, with what the scanner reports behind the last of them.
pub mod Lines
pub mod Trimming
pub mod Quoting
pub mod RoundTrip
mod Tests
use process_deck.Base.{
  ℕ, ◌+◌, Bool, true, false, not, ◌&&◌, ◌||◌, List, [], ◌∷◌, ◌++◌, Option, none, some, ◌==◌,
  if◌then◌else◌, get_or, take, drop, leb, length,
}
use process_deck.Base.Result.{Result, ok, err, ◌>>=◌}
use process_deck.Base.Text.{Text, codes, same}
use process_deck.Base.GoStrings.{trim_space, has_prefix, contains_char, cut}

pub data LineError : Type 0 where
  empty_key missing_closing_quote trailing_content : LineError
  key_with_equals bad_quoting : Text → LineError

pub data FileError : Type 0 where
  open_failed read_failed : (path reason : Text) → FileError
  bad_line : (path : Text) (number : ℕ) → LineError → FileError

abbrev pub Unquote : Type 0
Unquote = Text → Result Text Text

unfoldable pub is_env_space : ℕ → Bool
is_env_space ch = ch == b' ' || ch == b'\t'

-- What stands before a comment, behind the character `before`.
unfoldable pub before_comment : ℕ → Text → Text
unfolding is_env_space
before_comment before [] = []
before_comment before (c ∷ cs) =
    if c == b'#' && is_env_space before then [] else c ∷ before_comment c cs

unfoldable pub strip_env_inline_comment : Text → Text
unfolding before_comment
strip_env_inline_comment [] = []
strip_env_inline_comment (c ∷ cs) = c ∷ before_comment c cs

-- The loop from the index `i`, over what stands there and behind.
unfoldable pub closing_quote_from : ℕ → Bool → ℕ → Text → Option ℕ
closing_quote_from quote escaped i [] = none
closing_quote_from quote escaped i (c ∷ cs) =
    let escapes = c == b'\\' && not escaped in
    let rest = closing_quote_from quote escapes (i + 1) cs in
    if escapes then rest else if c == quote && not escaped then some i else rest

-- `none` is the answer -1.
unfoldable pub find_closing_quote : Text → ℕ → Option ℕ
unfolding closing_quote_from
find_closing_quote value quote = closing_quote_from quote false 1 (drop 1 value)

-- `strings.ReplaceAll` of the two characters `a` and `b` by `b`.
unfoldable pub unescape : ℕ → ℕ → Text → Text
unescape a b [] = []
unescape a b (c ∷ []) = c ∷ []
unescape a b (c ∷ d ∷ cs) = elim (c == a && d == b) [
  | true ↦ b ∷ unescape a b cs
  | false ↦ c ∷ unescape a b (d ∷ cs)
]

unfoldable pub parse_quoted_env_value : Unquote → Text → Result LineError Text
unfolding find_closing_quote unescape trim_space has_prefix same
parse_quoted_env_value unquote value =
    let quote = get_or value 0 0 in
    elim (find_closing_quote value quote) [
      | none ↦ err missing_closing_quote
      | some closing ↦
          let suffix = trim_space (drop (closing + 1) value) in
          let quoted = take (closing + 1) value in
          if not (same suffix []) && not (has_prefix suffix (codes "#"))
          then err trailing_content
          else if quote == b'"'
          then elim (unquote quoted) [ err reason ↦ err (bad_quoting reason) | ok text ↦ ok text ]
          else ok (unescape b'\\' b'\'' (drop 1 (take closing quoted)))
    ]

unfoldable pub parse_env_file_value : Unquote → Text → Result LineError Text
unfolding trim_space parse_quoted_env_value strip_env_inline_comment same
parse_env_file_value unquote value =
    let trimmed = trim_space value in
    let first = get_or trimmed 0 0 in
    if same trimmed []
    then ok []
    else if first == b'"' || first == b'\''
    then parse_quoted_env_value unquote trimmed
    else ok (trim_space (strip_env_inline_comment value))

unfoldable pub strip_env_export_prefix : Text → Text
unfolding has_prefix is_env_space trim_space
strip_env_export_prefix line =
    let keyword = codes "export" in
    let behind = drop (length keyword) line in
    if leb (length line) (length keyword)
      || not (has_prefix line keyword)
      || not (is_env_space (get_or line (length keyword) 0))
    then line
    else trim_space behind

-- `none` is a line without an entry.
unfoldable pub parse_env_file_line : Unquote → Text → Result LineError (Option Text)
unfolding strip_env_export_prefix parse_env_file_value trim_space has_prefix same cut contains_char
parse_env_file_line unquote line =
    let trimmed = strip_env_export_prefix (trim_space line) in
    if same trimmed [] || has_prefix trimmed (codes "#") then ok none else elim (cut trimmed b'=') [
      | none ↦ ok none
      | some (before, behind) ↦
          let key = trim_space before in
          if same key []
          then err empty_key
          else if contains_char key b'='
          then err (key_with_equals key)
          else parse_env_file_value unquote behind >>= (λ value. ok (some (key ++ b'=' ∷ value)))
    ]

-- The loop, with the number of lines already read and the entries found in them.
unfoldable pub parse_lines :
    Unquote → Text → ℕ → List Text → List Text → Option Text → Result FileError (List Text)
unfolding parse_env_file_line
parse_lines unquote source number entries [] none = ok entries
parse_lines unquote source number entries [] (some reason) = err (read_failed source reason)
parse_lines unquote source number entries (line ∷ lines) failure =
    elim (parse_env_file_line unquote line) [
      | err e ↦ err (bad_line source (number + 1) e)
      | ok none ↦ parse_lines unquote source (number + 1) entries lines failure
      | ok (some entry) ↦
          parse_lines unquote source (number + 1) (entries ++ entry ∷ []) lines failure
    ]

-- What the operating system answers: no file, or the lines and an error behind them.
abbrev pub ReadLines : Type 0
ReadLines = Text → Result Text (List Text × Option Text)

unfoldable pub parse_env_file :
    Unquote → List Text → Option Text → Text → Result FileError (List Text)
unfolding parse_lines
parse_env_file unquote lines failure source = parse_lines unquote source 0 [] lines failure

unfoldable pub read_env_file : Unquote → ReadLines → Text → Result FileError (List Text)
unfolding parse_env_file
read_env_file unquote read path = elim (read path) [
  | err reason ↦ err (open_failed path reason)
  | ok (lines, failure) ↦ parse_env_file unquote lines failure path
]

unfoldable pub resolve_env_file_path : (Text → Bool) → (Text → Text → Text) → Text → Text → Text
unfolding same
resolve_env_file_path is_abs join cwd path =
    if is_abs path || same cwd [] then path else join cwd path
