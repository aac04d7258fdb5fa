-- ===== src/EnvFile/RoundTrip.antt =====
-- The lines that a writer of environment files can use for any value without a backslash, and what
-- env_file.go reads back from them.
use process_deck.Base.{
  ◌≡◌, refl, ap, ◌≢◌, Bool, true, false, ◌||◌, List, [], ◌∷◌, ◌++◌, none, some, subst, append_assoc,
  arith, length, get_or, leb, map, ◌∙◌,
}
use process_deck.Base.Result.{ok}
use process_deck.Base.Text.{Text, codes, same}
use process_deck.Base.GoStrings.{
  is_space, trim_left, trim_space, has_prefix, contains_char, cut-append,
}
use process_deck.EnvFile.{
  Unquote, is_env_space, strip_env_export_prefix, parse_env_file_line, parse_env_file,
}
use process_deck.EnvFile.Lines.{Reads, nothing, found, parse_env_file-Reads}
use process_deck.EnvFile.Trimming.{has_space, trim_space-solid, trim_space-concat}
use process_deck.EnvFile.Quoting.{escape_quotes, quoted, parse_env_file_value-quoted}

-- A key that a line can begin with.
pub record IsKey (key : Text) : Type 0 where
  pub ne_nil : key ≢ []
  pub spaceless : has_space key ≡ false
  pub no_equals : contains_char key b'=' ≡ false
  pub no_comment : has_prefix key (codes "#") ≡ false

-- A line for one variable.
abbrev pub print_line : Bool → Text → Text → Text
print_line true key value = codes "export " ++ (key ++ b'=' ∷ quoted value)
print_line false key value = key ++ b'=' ∷ quoted value

trim_left-key :
    (key rest : Text) → has_space key ≡ false → trim_left (key ++ b'=' ∷ rest) ≡ key ++ b'=' ∷ rest
unfolding trim_left is_space
trim_left-key [] rest h = refl
trim_left-key (c ∷ cs) rest h = unfold trim_left in ground arith

-- Behind a prefix of such a line there is no space.
is_env_space-key :
    (key p rest : Text)
    → has_space key ≡ false
    → contains_char p b'=' ≡ false
    → has_prefix (key ++ b'=' ∷ rest) p ≡ true
    → is_env_space (get_or (key ++ b'=' ∷ rest) (length p) 0) ≡ false
unfolding is_env_space is_space has_prefix contains_char
is_env_space-key [] [] rest h e t = refl
is_env_space-key [] (q ∷ ps) rest h e t = ground arith
is_env_space-key (c ∷ cs) [] rest h e t = ground arith
is_env_space-key (c ∷ cs) (q ∷ ps) rest h e t =
    is_env_space-key cs ps rest (ground arith) (ground arith) (ground arith)

module _ {key : Text} (k : IsKey key) (value : Text) where
  abbrev line : Text
  line = key ++ b'=' ∷ quoted value

  abbrev front : Text
  front = key ++ b'=' ∷ b'\'' ∷ escape_quotes value

  ends : front ++ b'\'' ∷ [] ≡ line
  ends = append_assoc key (b'=' ∷ b'\'' ∷ escape_quotes value) (b'\'' ∷ [])

  trim_space-line : trim_space line ≡ line
  unfolding is_space
  trim_space-line =
      subst (λ t. trim_left t ≡ t → trim_space t ≡ t) ends (trim_space-concat front b'\'' refl)
        (trim_left-key key (quoted value) k.spaceless)

  trim_space-exported : trim_space (codes "export " ++ line) ≡ codes "export " ++ line
  unfolding is_space trim_left
  trim_space-exported =
      subst (λ t. trim_space (codes "export " ++ t) ≡ codes "export " ++ t) ends
        (trim_space-concat (codes "export " ++ front) b'\'' refl refl)

  strip_env_export_prefix-line : strip_env_export_prefix line ≡ line
  unfolding strip_env_export_prefix contains_char
  strip_env_export_prefix-line =
      ground (arith, is_env_space-key key (codes "export") (quoted value) k.spaceless refl)

  strip_env_export_prefix-exported : strip_env_export_prefix (codes "export " ++ line) ≡ line
  unfolding strip_env_export_prefix has_prefix is_env_space trim_space trim_left is_space
  strip_env_export_prefix-exported =
      let long : leb (length (codes "export " ++ line)) 6 ≡ false = ground arith in
      let stripped : strip_env_export_prefix (codes "export " ++ line) ≡ trim_space line =
        rw long refl in
      stripped ∙ trim_space-line

  line-starts : (same line [] || has_prefix line (codes "#")) ≡ false
  unfolding same has_prefix
  line-starts = starts key k.ne_nil k.no_comment
    where
      starts :
          (t : Text)
          → t ≢ []
          → has_prefix t (codes "#") ≡ false
          → (same (t ++ b'=' ∷ quoted value) []
              || has_prefix (t ++ b'=' ∷ quoted value) (codes "#"))
            ≡ false
      starts [] ne no_comment = absurd (ne refl)
      starts (c ∷ []) ne no_comment = no_comment
      starts (c ∷ d ∷ cs) ne no_comment = no_comment

  key-same : same key [] ≡ false
  unfolding same
  key-same = ne_nil key k.ne_nil
    where
      ne_nil : (t : Text) → t ≢ [] → same t [] ≡ false
      ne_nil [] ne = absurd (ne refl)
      ne_nil (c ∷ cs) ne = refl

  module _ (unquote : Unquote) (h : contains_char value b'\\' ≡ false) where
    -- Behind the trimming and the prefix, the line gives its variable.
    parse_env_file_line-line :
        (written : Text)
        → strip_env_export_prefix (trim_space written) ≡ line
        → parse_env_file_line unquote written ≡ ok (some (key ++ b'=' ∷ value))
    unfolding parse_env_file_line
    parse_env_file_line-line written e =
        rw
          (
            e,
            line-starts,
            cut-append key (quoted value) b'=' k.no_equals,
            trim_space-solid key k.spaceless,
          )
          (rw (key-same, k.no_equals, parse_env_file_value-quoted value h unquote) refl)

    parse_env_file_line-print_line :
        (exported : Bool)
        → parse_env_file_line unquote (print_line exported key value)
          ≡ ok (some (key ++ b'=' ∷ value))
    parse_env_file_line-print_line true =
        parse_env_file_line-line _
          (ap strip_env_export_prefix trim_space-exported ∙ strip_env_export_prefix-exported)
    parse_env_file_line-print_line false =
        parse_env_file_line-line _
          (ap strip_env_export_prefix trim_space-line ∙ strip_env_export_prefix-line)

-- A variable of a file, with the choice of its notation.
pub record Variable : Type 0 where
  pub exported : Bool
  pub key : Text
  pub value : Text

pub record IsWritable (v : Variable) : Type 0 where
  pub key_ok : IsKey v.key
  pub no_backslash : contains_char v.value b'\\' ≡ false

pub data AllWritable : List Variable → Type 0 where
  nil : AllWritable []
  cons : {v : Variable} {vs : List Variable} → IsWritable v → AllWritable vs → AllWritable (v ∷ vs)

abbrev pub print : Variable → Text
print v = print_line v.exported v.key v.value

abbrev pub entry : Variable → Text
entry v = v.key ++ b'=' ∷ v.value

Reads-print :
    (unquote : Unquote) {vs : List Variable}
    → AllWritable vs
    → Reads unquote (map print vs) (map entry vs)
Reads-print unquote nil = nothing
Reads-print unquote (cons {v} w ws) =
    found (parse_env_file_line-print_line w.key_ok v.value unquote w.no_backslash v.exported)
      (Reads-print unquote ws)

-- Variables written one to a line, their values in single quotes with `\'` for a quote inside and the
-- keyword `export` where one likes, are read back exactly and in their order, when keys are words
-- without `=` that do not begin with `#` and values have no backslash.
pub parse_env_file-print :
    (unquote : Unquote) (source : Text) {vs : List Variable}
    → AllWritable vs
    → parse_env_file unquote (map print vs) none source ≡ ok (map entry vs)
parse_env_file-print unquote source ws = parse_env_file-Reads source (Reads-print unquote ws)
