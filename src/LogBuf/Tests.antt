-- ===== src/LogBuf/Tests.antt =====
-- Runs of the ring and of the theorems about it.
use process_deck.Base.{ℕ, ◌<◌, ◌≤◌, ◌≡◌, refl, [], ◌∷◌, false, true, length, last_n, ◌++◌, arith}
use process_deck.Base.Int.{pos}
use process_deck.LogBuf.{Ring, new, add, retained_items, items_since, collect}
use process_deck.LogBuf.Inv.{IsValid, add-IsValid}
use process_deck.LogBuf.Contents.{retained_items-add}
use process_deck.LogBuf.Since.{add_all, items_since-add_all, retained_items-new}

-- A ring of three places that has turned once.
abbrev turned : Ring ℕ
turned = record { limit = pos 3; items = 4 ∷ 2 ∷ 3 ∷ []; start = 1; revision = 4 }

turned_run : add_all (new (pos 3)) (1 ∷ 2 ∷ 3 ∷ 4 ∷ []) ≡ turned
unfolding add_all new add
turned_run = refl

turned-IsValid : IsValid turned
turned-IsValid = omega arith

add-IsValid_example : IsValid (add turned 5)
add-IsValid_example = add-IsValid {r = turned} 5 turned-IsValid

retained_items-add_example :
    retained_items (add turned 5) ≡ last_n 3 (retained_items turned ++ (5 ∷ []))
retained_items-add_example = retained_items-add turned 5 turned-IsValid

retained_items_run : retained_items (add turned 5) ≡ 3 ∷ 4 ∷ 5 ∷ []
unfolding retained_items add
retained_items_run = refl

items_since_run : (items_since (add_all turned (5 ∷ 6 ∷ [])) 4).entries ≡ 5 ∷ 6 ∷ []
unfolding items_since retained_items add_all add collect
items_since_run = refl

items_since-add_all_example :
    let now = add_all turned (5 ∷ 6 ∷ []) in
    let s = items_since now 4 in
    (s.next ≡ now.revision)
    × (s.retained ≡ length (retained_items now))
    × (2 ≤ length (retained_items now) → (s.reset ≡ false) × (s.entries ≡ 5 ∷ 6 ∷ []))
    × (length (retained_items now) < 2 → (s.reset ≡ true) × (s.entries ≡ retained_items now))
items_since-add_all_example =
    items_since-add_all turned (5 ∷ 6 ∷ []) turned-IsValid (omega arith) (omega arith)

retained_items-new_example :
    retained_items (add_all (new {A = ℕ} (pos 2)) (7 ∷ 8 ∷ 9 ∷ [])) ≡ last_n 2 (7 ∷ 8 ∷ 9 ∷ [])
retained_items-new_example = retained_items-new (pos 2) (7 ∷ 8 ∷ 9 ∷ []) (omega arith)
