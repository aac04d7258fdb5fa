-- ===== src/Base/Utf8.antt =====
-- The functions of Go's `unicode/utf8` package that the program calls, over lists of bytes.
use Prim.Native.Nat.{ℕ, ◌+◌, ◌<◌}
use mathlib.Core.Path.{◌≡◌}
use mathlib.Core.Bool.{Bool, true, false, not, ◌&&◌, ◌||◌}
use mathlib.Core.List.{List, [], ◌∷◌, ◌++◌}
use process_deck.Base.Tests.{if◌then◌else◌, leb, ltb, ◌==◌}
use process_deck.Base.Lists.{length, get_or}

abbrev pub Bytes : Type 0
Bytes = List ℕ

-- The number of bytes that a character with the first byte `a` has; 1 where `a` begins none.
unfoldable pub width : ℕ → ℕ
width a =
    if ltb a 0xC2
    then 1
    else if leb a 0xDF
    then 2
    else if leb a 0xEF
    then 3
    else if leb a 0xF4
    then 4
    else 1

-- The bytes that may follow `a`.
unfoldable pub second_ok : ℕ → ℕ → Bool
second_ok a b =
    leb (if a == 0xE0 then 0xA0 else if a == 0xF0 then 0x90 else 0x80) b
    && leb b (if a == 0xED then 0x9F else if a == 0xF4 then 0x8F else 0xBF)

unfoldable pub is_continuation : ℕ → Bool
is_continuation b = leb 0x80 b && leb b 0xBF

-- `utf8.RuneStart`
unfoldable pub rune_start : ℕ → Bool
unfolding is_continuation
rune_start b = not (is_continuation b)

-- The size that `utf8.DecodeRune` returns: 1 for bytes that begin no character.
unfoldable pub decode_size : Bytes → ℕ
unfolding width second_ok is_continuation
decode_size [] = 0
decode_size (a ∷ rest) =
    let w = width a in
    if w == 1 || ltb (length rest + 1) w || not (second_ok a (get_or rest 0 0))
    then 1
    else if leb w 2
    then 2
    else if not (is_continuation (get_or rest 1 0))
    then 1
    else if leb w 3
    then 3
    else if not (is_continuation (get_or rest 2 0))
    then 1
    else 4

-- `utf8.FullRune`
unfoldable pub full_rune : Bytes → Bool
unfolding width second_ok is_continuation
full_rune [] = false
full_rune (a ∷ rest) =
    leb (width a) (length rest + 1)
    || (ltb 0 (length rest) && not (second_ok a (get_or rest 0 0)))
    || (ltb 1 (length rest) && not (is_continuation (get_or rest 1 0)))

-- The encoding of one character.
pub data IsRune : Bytes → Type 0 where
  one : {a : ℕ} → a < 0x80 → IsRune (a ∷ [])
  two : {a b : ℕ} → width a ≡ 2 → second_ok a b ≡ true → IsRune (a ∷ b ∷ [])
  three :
      {a b c : ℕ}
      → width a ≡ 3
      → second_ok a b ≡ true
      → is_continuation c ≡ true
      → IsRune (a ∷ b ∷ c ∷ [])
  four :
      {a b c d : ℕ}
      → width a ≡ 4
      → second_ok a b ≡ true
      → is_continuation c ≡ true
      → is_continuation d ≡ true
      → IsRune (a ∷ b ∷ c ∷ d ∷ [])

-- Valid UTF-8.
pub data IsUtf8 : Bytes → Type 0 where
  nil : IsUtf8 []
  rune : {first : Bytes} {rest : Bytes} → IsRune first → IsUtf8 rest → IsUtf8 (first ++ rest)
