-- ===== src/EnvFile/Tests.antt =====
-- Lines and files of environment variables, and the theorems on them at work.
use process_deck.Base.{◌≡◌, refl, true, false, List, [], ◌∷◌, none, some, map}
use process_deck.Base.Result.{ok, err}
use process_deck.Base.Text.{Text, codes}
use process_deck.Base.GoStrings.{is_space, has_prefix, contains_char}
use process_deck.EnvFile.{
  Unquote, empty_key, missing_closing_quote, trailing_content, parse_env_file_line, parse_env_file,
}
use process_deck.EnvFile.Lines.{Explains, parse_env_file-Explains}
use process_deck.EnvFile.RoundTrip.{
  Variable, IsKey, AllWritable, nil, cons, print, entry, parse_env_file-print,
}

-- What `strconv.Unquote` gives for a text that it does not accept.
abbrev no_unquote : Unquote
no_unquote text = err (codes "invalid syntax")

plain : parse_env_file_line no_unquote (codes " export A = 1 # one") ≡ ok (some (codes "A=1"))
unfolding parse_env_file_line
plain = refl

comment_only : parse_env_file_line no_unquote (codes "KEY= # comment") ≡ ok (some (codes "KEY="))
unfolding parse_env_file_line
comment_only = refl

fragment : parse_env_file_line no_unquote (codes "KEY=value#f") ≡ ok (some (codes "KEY=value#f"))
unfolding parse_env_file_line
fragment = refl

ignored : parse_env_file_line no_unquote (codes "# A=1") ≡ ok none
unfolding parse_env_file_line
ignored = refl

no_key : parse_env_file_line no_unquote (codes " = 1") ≡ err empty_key
unfolding parse_env_file_line
no_key = refl

unclosed : parse_env_file_line no_unquote (codes "A='1") ≡ err missing_closing_quote
unfolding parse_env_file_line
unclosed = refl

trailing : parse_env_file_line no_unquote (codes "A='1' 2") ≡ err trailing_content
unfolding parse_env_file_line
trailing = refl

abbrev variables : List Variable
variables =
    record { exported = true; key = codes "NAME"; value = codes "it's # here" }
    ∷ record { exported = false; key = codes "export"; value = [] }
    ∷ []

name-IsKey : IsKey (codes "NAME")
unfolding is_space contains_char has_prefix
name-IsKey = record { ne_nil = λ e. cc; spaceless = refl; no_equals = refl; no_comment = refl }

export-IsKey : IsKey (codes "export")
unfolding is_space contains_char has_prefix
export-IsKey = record { ne_nil = λ e. cc; spaceless = refl; no_equals = refl; no_comment = refl }

variables-AllWritable : AllWritable variables
unfolding contains_char
variables-AllWritable =
    cons (record { key_ok = name-IsKey; no_backslash = refl })
      (cons (record { key_ok = export-IsKey; no_backslash = refl }) nil)

parse_env_file-print_example :
    parse_env_file no_unquote (map print variables) none (codes ".env") ≡ ok (map entry variables)
parse_env_file-print_example = parse_env_file-print no_unquote (codes ".env") variables-AllWritable

abbrev bad_lines : List Text
bad_lines = codes "A=1" ∷ codes "" ∷ codes "B='2" ∷ []

parse_env_file-Explains_example :
    Explains no_unquote
      (codes ".env")
      0
      []
      bad_lines
      none
      (parse_env_file no_unquote bad_lines none (codes ".env"))
parse_env_file-Explains_example = parse_env_file-Explains no_unquote bad_lines none (codes ".env")
