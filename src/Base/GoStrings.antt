-- ===== src/Base/GoStrings.antt =====
-- The functions of Go's `strings` package that the program calls, over code points.
use Prim.Native.Nat.{ℕ, ◌-◌}
use mathlib.Core.Bool.{Bool, true, false, ◌&&◌, ◌||◌}
use mathlib.Core.Path.{◌≡◌}
use mathlib.Core.List.{[], ◌∷◌, ◌++◌, map, reverse}
use native.Mathlib.Omega.{arith}
use mathlib.Core.Option.{Option, none, some}
use process_deck.Base.Tests.{if◌then◌else◌, leb, ◌==◌}
use process_deck.Base.Text.{Text}

-- `unicode.IsSpace`
unfoldable pub is_space : ℕ → Bool
is_space c =
    (leb 9 c && leb c 13)
    || c == 32
    || c == 0x85
    || c == 0xA0
    || c == 0x1680
    || (leb 0x2000 c && leb c 0x200A)
    || c == 0x2028
    || c == 0x2029
    || c == 0x202F
    || c == 0x205F
    || c == 0x3000

unfoldable pub trim_left : Text → Text
unfolding is_space
trim_left [] = []
trim_left (c ∷ cs) = let rest = trim_left cs in if is_space c then rest else c ∷ cs

-- `strings.TrimSpace`
unfoldable pub trim_space : Text → Text
unfolding trim_left
trim_space text = reverse (trim_left (reverse (trim_left text)))

unfoldable pub has_prefix : Text → Text → Bool
has_prefix text [] = true
has_prefix [] (p ∷ ps) = false
has_prefix (c ∷ cs) (p ∷ ps) = c == p && has_prefix cs ps

-- `strings.TrimPrefix`
unfoldable pub trim_prefix : Text → Text → Text
trim_prefix text [] = text
trim_prefix [] (p ∷ ps) = []
trim_prefix (c ∷ cs) (p ∷ ps) =
    let rest = trim_prefix cs ps in
    if c == p then (if has_prefix cs ps then rest else c ∷ cs) else c ∷ cs

-- `strings.Contains` of one character.
unfoldable pub contains_char : Text → ℕ → Bool
contains_char [] c = false
contains_char (x ∷ xs) c = x == c || contains_char xs c

-- `strings.Cut` at one character: what stands before and behind its first occurrence.
unfoldable pub cut : Text → ℕ → Option (Text × Text)
cut [] sep = none
cut (c ∷ cs) sep =
    let rest = cut cs sep in
    if c == sep
    then some ([], cs)
    else elim rest [ none ↦ none | some (before, behind) ↦ some (c ∷ before, behind) ]

-- Upper case, for the code points whose upper case is an ASCII letter; the program only compares the
-- result with ASCII words.
unfoldable pub upper : ℕ → ℕ
upper c =
    if leb b'a' c && leb c b'z'
    then c - 32
    else if c == 0x131
    then b'I'
    else if c == 0x17F
    then b'S'
    else c

-- `strings.ToUpper`, up to letters outside ASCII
unfoldable pub to_upper : Text → Text
unfolding upper
to_upper text = map upper text

-- The cut of a text at the first separator.
pub cut-append :
    (before behind : Text) (sep : ℕ)
    → contains_char before sep ≡ false
    → cut (before ++ sep ∷ behind) sep ≡ some (before, behind)
unfolding cut contains_char
cut-append [] behind sep h = ground arith
cut-append (c ∷ cs) behind sep h = ground (arith, cut-append cs behind sep)
