-- ===== src/Base/Text.antt =====
-- Go strings as their code points, with the comparisons and the sort that the program makes of them.
use Prim.Native.Nat.{ℕ, ◌+◌}
use Prim.Native.Char.{code}
use Prim.Native.String.{String}
use mathlib.Core.Path.{◌≡◌, refl}
use mathlib.Core.Logic.{◌↔◌}
use mathlib.Core.Bool.{Bool, true, false, ◌&&◌, ◌||◌}
use mathlib.Core.List.{List, [], ◌∷◌, ◌++◌}
use native.Mathlib.Omega.{arith}
use process_deck.Base.Tests.{if◌then◌else◌, ltb, ◌==◌}
use process_deck.Base.Lists.{length}

abbrev pub Text : Type 0
Text = List ℕ

abbrev pub codes : String → Text
codes String.[] = []
codes (String.◌∷◌ c s) = code c ∷ codes s

unfoldable pub same : Text → Text → Bool
same [] [] = true
same [] (y ∷ ys) = false
same (x ∷ xs) [] = false
same (x ∷ xs) (y ∷ ys) = x == y && same xs ys

-- The order of `sort.Strings`.
unfoldable pub precedes : Text → Text → Bool
precedes [] ys = true
precedes (x ∷ xs) [] = false
precedes (x ∷ xs) (y ∷ ys) = ltb x y || (x == y && precedes xs ys)

insert_sorted : Text → List Text → List Text
insert_sorted x [] = x ∷ []
insert_sorted x (y ∷ ys) =
    let rest = insert_sorted x ys in if precedes x y then x ∷ y ∷ ys else y ∷ rest

-- `sort.Strings`. Equal strings cannot be told apart, so any sort gives this list.
unfoldable pub sort : List Text → List Text
unfolding insert_sorted precedes
sort [] = []
sort (x ∷ xs) = insert_sorted x (sort xs)

-- Membership in a set of names, or in a slice that the source searches.
unfoldable pub member : Text → List Text → Bool
unfolding same
member a [] = false
member a (x ∷ xs) = same a x || member a xs

pub same_iff : (xs ys : Text) → (same xs ys ≡ true) ↔ (xs ≡ ys)
unfolding same
same_iff [] [] = (λ _. refl, λ _. refl)
same_iff [] (y ∷ ys) = ((λ h. cc), (λ h. cc))
same_iff (x ∷ xs) [] = ((λ h. cc), (λ h. cc))
same_iff (x ∷ xs) (y ∷ ys) = ground (arith, same_iff xs ys)

pub same_self : (xs : Text) → same xs xs ≡ true
same_self xs = (same_iff xs xs).1 refl

pub same_sym : (xs ys : Text) → same xs ys ≡ same ys xs
same_sym xs ys = ground (arith, same_iff xs ys, same_iff ys xs)

member-insert_sorted :
    (a x : Text) (ys : List Text) → member a (insert_sorted x ys) ≡ (same a x || member a ys)
unfolding member insert_sorted
member-insert_sorted a x [] = refl
member-insert_sorted a x (y ∷ ys) = ground (arith, member-insert_sorted a x ys)

pub member-sort : (a : Text) (xs : List Text) → member a (sort xs) ≡ member a xs
unfolding member sort
member-sort a [] = refl
member-sort a (x ∷ xs) = ground (arith, member-insert_sorted a x (sort xs), member-sort a xs)

length-insert_sorted : (x : Text) (ys : List Text) → length (insert_sorted x ys) ≡ length ys + 1
unfolding insert_sorted
length-insert_sorted x [] = omega arith
length-insert_sorted x (y ∷ ys) = ground (arith, length-insert_sorted x ys)

pub length-sort : (xs : List Text) → length (sort xs) ≡ length xs
unfolding sort
length-sort [] = refl
length-sort (x ∷ xs) = omega (arith, length-insert_sorted x (sort xs), length-sort xs)

pub member-append :
    (a : Text) (xs ys : List Text) → member a (xs ++ ys) ≡ (member a xs || member a ys)
unfolding member
member-append a [] ys = refl
member-append a (x ∷ xs) ys = ground (arith, member-append a xs ys)

-- `All P` of the members that a search finds.
abbrev pub AllIn {ℓ} : (Text → Type ℓ) → List Text → Type ℓ
AllIn P xs = (a : Text) → member a xs ≡ true → P a
