-- ===== src/EnvFile/Trimming.antt =====
-- `strings.TrimSpace` of texts that have no white space, or none at their ends.
use mathlib.Core.List.{reverse-cons, reverse-append, reverse-reverse}
use process_deck.Base.{ℕ, ◌≡◌, refl, ap, Bool, false, ◌||◌, [], ◌∷◌, ◌++◌, arith, reverse, ◌∙◌}
use process_deck.Base.Text.{Text}
use process_deck.Base.GoStrings.{is_space, trim_left, trim_space}

abbrev pub has_space : Text → Bool
has_space [] = false
has_space (c ∷ cs) = is_space c || has_space cs

pub trim_left-solid : (xs : Text) → has_space xs ≡ false → trim_left xs ≡ xs
unfolding trim_left
trim_left-solid [] h = refl
trim_left-solid (c ∷ cs) h = ground (arith)

has_space-append : (xs ys : Text) → has_space (xs ++ ys) ≡ (has_space xs || has_space ys)
has_space-append [] ys = refl
has_space-append (x ∷ xs) ys = ground (arith, has_space-append xs ys)

has_space-reverse : (xs : Text) → has_space (reverse xs) ≡ has_space xs
has_space-reverse [] = refl
has_space-reverse (x ∷ xs) =
    ap has_space (reverse-cons x xs)
    ∙ has_space-append (reverse xs) (x ∷ [])
    ∙ ground (arith, has_space-reverse xs)

-- A text without white space is not trimmed, and neither is one that only begins and ends so.
pub trim_space-solid : (xs : Text) → has_space xs ≡ false → trim_space xs ≡ xs
unfolding trim_space
trim_space-solid xs h =
    ap (λ t. reverse (trim_left (reverse t))) (trim_left-solid xs h)
    ∙ ap reverse (trim_left-solid (reverse xs) (has_space-reverse xs ∙ h))
    ∙ reverse-reverse xs

pub trim_space-concat :
    (front : Text) (d : ℕ)
    → is_space d ≡ false
    → trim_left (front ++ d ∷ []) ≡ front ++ d ∷ []
    → trim_space (front ++ d ∷ []) ≡ front ++ d ∷ []
unfolding trim_space trim_left
trim_space-concat front d h left =
    ap (λ t. reverse (trim_left (reverse t))) left
    ∙ ap (λ t. reverse (trim_left t)) (reverse-append front (d ∷ []))
    ∙ ap reverse (trim_left-cons (reverse front))
    ∙ reverse-cons d (reverse front)
    ∙ ap (λ t. t ++ d ∷ []) (reverse-reverse front)
  where
    trim_left-cons : (rest : Text) → trim_left (d ∷ rest) ≡ d ∷ rest
    trim_left-cons rest = rw (h, trim_left)
