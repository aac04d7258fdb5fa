-- ===== src/Runner/Logs/Runes.antt =====
-- Beginnings of texts in UTF-8, and the bytes of one character.
use process_deck.Base.{
  ℕ, zero, suc, ◌+◌, ◌≤◌, ◌<◌, ◌≡◌, ◌≢◌, ◌⊎◌, inl, inr, refl, sym, ap, ◌∙◌, true, false, [], ◌∷◌,
  ◌++◌, length, get_or, arith, length-append,
}
use process_deck.Base.Utf8.{
  Bytes, width, second_ok, is_continuation, rune_start, decode_size, full_rune, IsRune, one, two,
  three, four,
}

-- Two texts with a common continuation: one is the beginning of the other.
pub overlap :
    (xs ys zs ws : Bytes)
    → xs ++ zs ≡ ys ++ ws
    → ((r : Bytes) × (xs ≡ ys ++ r) × (ws ≡ r ++ zs))
      ⊎ ((r : Bytes) × (ys ≡ xs ++ r) × (zs ≡ r ++ ws) × (r ≢ []))
overlap xs [] zs ws e = inl (xs, refl, sym e)
overlap [] (y ∷ ys) zs ws e = inr (y ∷ ys, refl, e, (λ h. cc))
overlap (x ∷ xs) (y ∷ ys) zs ws e = elim (overlap xs ys zs ws (ground arith)) [
  | inl (r, p, q) ↦ inl (r, ground arith, q)
  | inr (r, p, q, n) ↦ inr (r, ground arith, q, n)
]

pub get_or-append : (xs ys : Bytes) (i : ℕ) → get_or (xs ++ ys) (length xs + i) 0 ≡ get_or ys i 0
get_or-append [] ys i = ap (λ n. get_or ys n 0) (omega arith)
get_or-append (x ∷ xs) ys i =
    ap (λ n. get_or (x ∷ xs ++ ys) n 0)
      (let eq : suc (length xs) + i ≡ suc (length xs + i) = omega arith in eq)
    ∙ get_or-append xs ys i

pub get_or-front : (xs ys : Bytes) (i : ℕ) → i < length xs → get_or (xs ++ ys) i 0 ≡ get_or xs i 0
get_or-front [] ys i h = elim h [ ]
get_or-front (x ∷ xs) ys zero h = refl
get_or-front (x ∷ xs) ys (suc i) h = get_or-front xs ys i (omega arith)

-- The bytes of a character behind its first.
pub IsRune-tail :
    {r : Bytes} → IsRune r → (i : ℕ) → suc i < length r → rune_start (get_or r (suc i) 0) ≡ false
unfolding rune_start second_ok
IsRune-tail (one h) i lt = absurd (omega arith)
IsRune-tail (two w s) zero lt = ground arith
IsRune-tail (two w s) (suc i) lt = absurd (omega arith)
IsRune-tail (three w s c) zero lt = ground arith
IsRune-tail (three w s c) (suc zero) lt = ground arith
IsRune-tail (three w s c) (suc (suc i)) lt = absurd (omega arith)
IsRune-tail (four w s c d) zero lt = ground arith
IsRune-tail (four w s c d) (suc zero) lt = ground arith
IsRune-tail (four w s c d) (suc (suc zero)) lt = ground arith
IsRune-tail (four w s c d) (suc (suc (suc i))) lt = absurd (omega arith)

pub IsRune-head : {r : Bytes} → IsRune r → rune_start (get_or r 0 0) ≡ true
unfolding rune_start width is_continuation
IsRune-head (one h) = ground arith
IsRune-head (two w s) = ground arith
IsRune-head (three w s c) = ground arith
IsRune-head (four w s c d) = ground arith

pub length-IsRune : {r : Bytes} → IsRune r → (0 < length r) × (length r ≤ 4)
length-IsRune (one h) = omega arith
length-IsRune (two w s) = omega arith
length-IsRune (three w s c) = omega arith
length-IsRune (four w s c d) = omega arith

-- A whole character is measured.
pub decode_size-append : {r : Bytes} (rest : Bytes) → IsRune r → decode_size (r ++ rest) ≡ length r
unfolding decode_size
decode_size-append rest (one h) = unfold width in ground arith
decode_size-append rest (two w s) = ground arith
decode_size-append rest (three w s c) = ground arith
decode_size-append rest (four w s c d) = ground arith

-- The beginning of a character is not a whole one.
pub full_rune-front :
    {r : Bytes} (a : ℕ) (front : Bytes) (c : ℕ) (rest : Bytes)
    → IsRune r
    → r ≡ (a ∷ front) ++ c ∷ rest
    → full_rune (a ∷ front) ≡ false
unfolding full_rune
full_rune-front a [] c rest (one h) e = ground arith
full_rune-front a [] c rest (two w s) e = ground arith
full_rune-front a [] c rest (three w s k) e = ground arith
full_rune-front a [] c rest (four w s k l) e = ground arith
full_rune-front a (b ∷ []) c rest (one h) e = ground arith
full_rune-front a (b ∷ []) c rest (two w s) e = ground arith
full_rune-front a (b ∷ []) c rest (three w s k) e = ground arith
full_rune-front a (b ∷ []) c rest (four w s k l) e = ground arith
full_rune-front a (b ∷ d ∷ []) c rest (one h) e = ground arith
full_rune-front a (b ∷ d ∷ []) c rest (two w s) e = ground arith
full_rune-front a (b ∷ d ∷ []) c rest (three w s k) e = ground arith
full_rune-front a (b ∷ d ∷ []) c rest (four w s k l) e = ground arith
full_rune-front a (b ∷ d ∷ f ∷ front) c rest k e =
    absurd (omega (arith, ap length e, length-append {0} front (c ∷ rest), (length-IsRune k).1))
