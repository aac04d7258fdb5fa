-- ===== src/EnvFile/Quoting.antt =====
-- A value written in single quotes, and what env_file.go reads from it.
use process_deck.Base.{
  ℕ, zero, suc, ◌+◌, ◌≡◌, refl, sym, ap, false, [], ◌∷◌, ◌++◌, some, append-nil, arith, length,
  take, drop, ◌==◌, if◌then◌else◌, ◌∙◌, length-append, take-append, drop-append,
}
use process_deck.Base.Result.{ok}
use process_deck.Base.Text.{Text, same}
use process_deck.Base.GoStrings.{is_space, trim_left, trim_space, contains_char}
use process_deck.EnvFile.{
  Unquote, closing_quote_from, find_closing_quote, unescape, parse_quoted_env_value,
  parse_env_file_value,
}
use process_deck.EnvFile.Trimming.{trim_space-concat}

-- A value in single quotes.
pub escape_quotes : Text → Text
escape_quotes [] = []
escape_quotes (c ∷ cs) =
    let rest = escape_quotes cs in if c == b'\'' then b'\\' ∷ b'\'' ∷ rest else c ∷ rest

abbrev pub quoted : Text → Text
quoted value = b'\'' ∷ (escape_quotes value ++ b'\'' ∷ [])

closing_quote_from-escape_quotes :
    (value rest : Text) (i : ℕ)
    → contains_char value b'\\' ≡ false
    → closing_quote_from b'\'' false i (escape_quotes value ++ b'\'' ∷ rest)
      ≡ some (i + length (escape_quotes value))
unfolding closing_quote_from escape_quotes contains_char
closing_quote_from-escape_quotes [] rest i h = ground arith
closing_quote_from-escape_quotes (c ∷ cs) rest i h = ground (
  arith,
  closing_quote_from-escape_quotes cs rest (i + 1),
  closing_quote_from-escape_quotes cs rest (i + 1 + 1),
)

unescape-other :
    (a b c : ℕ) (cs : Text) → (c == a) ≡ false → unescape a b (c ∷ cs) ≡ c ∷ unescape a b cs
unfolding unescape
unescape-other a b c [] h = refl
unescape-other a b c (d ∷ cs) h = ground arith

unescape-escape_quotes :
    (value : Text)
    → contains_char value b'\\' ≡ false
    → unescape b'\\' b'\'' (escape_quotes value) ≡ value
unfolding unescape escape_quotes contains_char
unescape-escape_quotes [] h = refl
unescape-escape_quotes (c ∷ cs) h =
    ground (arith, unescape-escape_quotes cs, unescape-other b'\\' b'\'' c (escape_quotes cs))

take-take : (n : ℕ) (xs : Text) → take n (take (suc n) xs) ≡ take n xs
take-take zero xs = refl
take-take (suc n) [] = refl
take-take (suc n) (x ∷ xs) = ap (λ l. x ∷ l) (take-take n xs)

-- Where the closing quote of a quoted value is, and what stands around it.
module _ (value : Text) where
  abbrev closing : ℕ
  closing = suc (length (escape_quotes value))

  length-quoted : length (quoted value) ≡ closing + 1
  length-quoted = omega (arith, length-append {0} (escape_quotes value) (b'\'' ∷ []))

  drop-quoted : drop (closing + 1) (quoted value) ≡ []
  drop-quoted =
      ap (λ n. drop n (quoted value)) (sym length-quoted)
      ∙ (ap (drop (length (quoted value))) (sym (append-nil (quoted value)))
          ∙ drop-append (quoted value) [])

  content-quoted : drop 1 (take closing (take (closing + 1) (quoted value))) ≡ escape_quotes value
  content-quoted =
      ap (λ n. drop 1 (take closing (take n (quoted value))))
        (let eq : closing + 1 ≡ suc closing = omega arith in eq)
      ∙ ap (drop 1) (take-take closing (quoted value))
      ∙ take-append (escape_quotes value) (b'\'' ∷ [])

  module _ (h : contains_char value b'\\' ≡ false) where
    find_closing_quote-quoted : find_closing_quote (quoted value) b'\'' ≡ some closing
    unfolding find_closing_quote
    find_closing_quote-quoted =
        closing_quote_from-escape_quotes value [] 1 h ∙ ap some (omega arith)

    parse_quoted_env_value-quoted :
        (unquote : Unquote) → parse_quoted_env_value unquote (quoted value) ≡ ok value
    unfolding parse_quoted_env_value trim_space trim_left same
    parse_quoted_env_value-quoted unquote = ground (
      arith,
      find_closing_quote-quoted,
      drop-quoted,
      content-quoted,
      unescape-escape_quotes value h,
    )

    pub trim_space-quoted : trim_space (quoted value) ≡ quoted value
    unfolding trim_left is_space
    trim_space-quoted = trim_space-concat (b'\'' ∷ escape_quotes value) b'\'' refl refl

    pub parse_env_file_value-quoted :
        (unquote : Unquote) → parse_env_file_value unquote (quoted value) ≡ ok value
    unfolding parse_env_file_value same
    parse_env_file_value-quoted unquote =
        ground (arith, trim_space-quoted, parse_quoted_env_value-quoted unquote)
