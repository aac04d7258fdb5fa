-- ===== src/LogBuf/Since.antt =====
-- What `ItemsSince` gives a reader that holds a cursor.
use process_deck.Base.{
  ℕ, ◌+◌, ◌-◌, ◌%◌, ◌^◌, ◌≤◌, ◌<◌, ◌≡◌, ◌≢◌, refl, sym, ap, subst, ◌∙◌, ◌⊎◌, inl, inr, List, [],
  ◌∷◌, ◌++◌, append-nil, append_assoc, length, length-append, length-set, length-drop, drop,
  drop_nil, last_n, drop-drop, drop-append_ge, last_n-last_n-append, ltb, ◌==◌, true, false, ◌||◌,
  Bool-cases, arith,
}
use process_deck.Base.Int.{ℤ, pos_part}
use process_deck.LogBuf.{Ring, u64, new, add, store, bump, collect, retained_items, items_since}
use process_deck.LogBuf.Inv.{IsValid, add-IsValid, new-IsValid}
use process_deck.LogBuf.Contents.{
  retained_items-add, length-retained_items, rotate, collect-rotate, retained_items-rotate,
}

module _ {ℓ} {A : Type ℓ} where
  unfoldable pub add_all : Ring A → List A → Ring A
  add_all r [] = r
  add_all r (x ∷ xs) = add_all (add r x) xs

  pub add_all-IsValid : {r : Ring A} (xs : List A) → IsValid r → IsValid (add_all r xs)
  unfolding add_all
  add_all-IsValid {r} [] v = v
  add_all-IsValid {r} (x ∷ xs) v = add_all-IsValid {r = add r x} xs (add-IsValid x v)

  limit-add : (r : Ring A) (x : A) → (add r x).limit ≡ r.limit
  unfolding add
  limit-add r x = ground arith

  limit-add_all : (r : Ring A) (xs : List A) → (add_all r xs).limit ≡ r.limit
  unfolding add_all
  limit-add_all r [] = refl
  limit-add_all r (x ∷ xs) = limit-add_all (add r x) xs ∙ limit-add r x

  pub revision-add :
      (r : Ring A) (x : A)
      → 0 < pos_part r.limit
      → r.revision + 1 < u64
      → (add r x).revision ≡ r.revision + 1
  unfolding add
  revision-add r x h small = ground arith

  pub length-items-add :
      (r : Ring A) (x : A)
      → 0 < pos_part r.limit
      → IsValid r
      → (0 < length (add r x).items) × (length (add r x).items ≤ length r.items + 1)
  unfolding add store bump
  length-items-add r x h v =
      ground (arith, length-append r.items (x ∷ []), length-set r.items r.start x)

  revision-add_all :
      (r : Ring A) (xs : List A)
      → 0 < pos_part r.limit
      → r.revision + length xs < u64
      → (add_all r xs).revision ≡ r.revision + length xs
  unfolding add_all
  revision-add_all r [] h small = omega arith
  revision-add_all r (x ∷ xs) h small =
      let next = revision-add r x h (omega arith) in
      omega
        (arith, next, revision-add_all (add r x) xs (rw (limit-add r x) h) (omega (arith, next)))

  pub retained_items-add_all :
      (r : Ring A) (xs : List A)
      → IsValid r
      → retained_items (add_all r xs) ≡ last_n (pos_part r.limit) (retained_items r ++ xs)
  unfolding add_all
  retained_items-add_all r [] v =
      sym (append-nil (retained_items r))
      ∙ ap (λ k. drop k (retained_items r ++ [])) {x = 0}
          (omega (arith, length-append (retained_items r) [], length-retained_items v))
  retained_items-add_all r (x ∷ xs) v =
      let c = pos_part r.limit in
      retained_items-add_all (add r x) xs (add-IsValid x v)
      ∙ ap (λ l. last_n (pos_part l) (retained_items (add r x) ++ xs)) (limit-add r x)
      ∙ ap (λ l. last_n c (l ++ xs)) (retained_items-add r x v)
      ∙ last_n-last_n-append c (retained_items r ++ (x ∷ [])) xs
      ∙ ap (last_n c) (append_assoc (retained_items r) (x ∷ []) xs)

  retained_tail :
      (r : Ring A) (cursor : ℕ)
      → IsValid r
      → cursor ≤ r.revision
      → r.revision - cursor ≤ length r.items
      → let i = cursor - (r.revision + u64 - length r.items) % u64 in
        collect r.items r.start (length r.items - i) i
        ≡ drop (length r.items - (r.revision - cursor)) (retained_items r)
  retained_tail r cursor v known recent =
      let i = cursor - (r.revision + u64 - length r.items) % u64 in
      collect-rotate r.items r.start (length r.items - i) i (omega arith) (omega arith)
      ∙ ap (λ k. drop k (rotate r.start r.items)) {y = length r.items - (r.revision - cursor)}
          (omega arith)
      ∙ ap (drop (length r.items - (r.revision - cursor))) (sym (retained_items-rotate v))

  retained_empty : (r : Ring A) → length r.items == 0 ≡ true → retained_items r ≡ []
  unfolding retained_items
  retained_empty r e = rw e

  -- The two answers of `ItemsSince` at any cursor.
  pub items_since_cases :
      (r : Ring A) (cursor : ℕ)
      → IsValid r
      → let s = items_since r cursor in
        ((s.reset ≡ false)
          × (cursor ≤ r.revision)
          × (r.revision - cursor ≤ length r.items)
          × (s.entries ≡ drop (length r.items - (r.revision - cursor)) (retained_items r)))
        ⊎ ((s.reset ≡ true)
            × (s.entries ≡ retained_items r)
            × ((cursor + length r.items < r.revision)
                ⊎ (r.revision < cursor)
                ⊎ (cursor ≢ r.revision) × (length r.items ≡ 0)))
  unfolding items_since
  items_since_cases r cursor v = elim (Bool-cases (length r.items == 0)) [
    | inl empty ↦ elim (Bool-cases (cursor == r.revision)) [
      | inl same ↦
          rw (empty, same)
            (inl (refl, ground arith, ground arith, rw (retained_empty r empty) (sym (drop_nil _))))
      | inr other ↦
          rw (empty, other)
            (inr (refl, sym (retained_empty r empty), inr (inr (ground arith, ground arith))))
    ]
    | inr held ↦
        elim (Bool-cases
          (ltb cursor ((r.revision + u64 - length r.items) % u64) || ltb r.revision cursor)) [
            | inl stale ↦ rw (held, stale) (inr (refl, refl, ground arith))
            | inr fresh ↦
                rw (held, fresh)
                  (inl (
                    refl,
                    ground arith,
                    ground arith,
                    retained_tail r cursor v (ground arith) (ground arith),
                  ))
          ]
  ]

  items_since_counts :
      (r : Ring A) (cursor : ℕ)
      → ((items_since r cursor).next ≡ r.revision)
        × ((items_since r cursor).retained ≡ length r.items)
  unfolding items_since
  items_since_counts r cursor = ground arith

  drop-last_n-append :
      (c : ℕ) (xs ys : List A)
      → length ys ≤ length (last_n c (xs ++ ys))
      → drop (length (last_n c (xs ++ ys)) - length ys) (last_n c (xs ++ ys)) ≡ ys
  drop-last_n-append c xs ys h =
      let k = length (xs ++ ys) - c in
      drop-drop (length (last_n c (xs ++ ys)) - length ys) k (xs ++ ys)
      ∙ ap (λ m. drop m (xs ++ ys)) {y = length xs}
          (omega (arith, length-append xs ys, length-drop k (xs ++ ys)))
      ∙ drop-append_ge (length xs) xs ys (omega arith)
      ∙ ap (λ m. drop m ys) {y = 0} (omega arith)

  -- A reader that has seen a ring up to its revision, and asks again after more items were added,
  -- is given exactly those items, as long as the ring still holds them all; if the ring has dropped
  -- some of them, the answer is marked as a reset and holds all that is retained. The revision does
  -- not pass its largest value in between.
  pub items_since-add_all :
      (r : Ring A) (xs : List A)
      → IsValid r
      → 0 < pos_part r.limit
      → r.revision + length xs < u64
      → let now = add_all r xs in
        let s = items_since now r.revision in
        (s.next ≡ now.revision)
        × (s.retained ≡ length (retained_items now))
        × (length xs ≤ length (retained_items now) → (s.reset ≡ false) × (s.entries ≡ xs))
        × (length (retained_items now) < length xs
            → (s.reset ≡ true) × (s.entries ≡ retained_items now))
  items_since-add_all r xs v h small =
      let now = add_all r xs in
      let w = add_all-IsValid xs v in
      let rev = revision-add_all r xs h small in
      let size = length-retained_items w in
      let all = retained_items-add_all r xs v in
      let back : (length xs ≤ length now.items)
          → drop (length now.items - (now.revision - r.revision)) (retained_items now) ≡ xs =
        λ fits.
          ap (λ k. drop k (retained_items now)) {y = length (retained_items now) - length xs}
            (omega (arith, rev, size))
          ∙ ap (λ l. drop (length l - length xs) l) all
          ∙ drop-last_n-append (pos_part r.limit) (retained_items r) xs
              (subst (λ l. length xs ≤ length l) all (omega (arith, size))) in
      elim (items_since_cases now r.revision w) [
        | inl (kept, known, recent, entries) ↦ (
          (items_since_counts now r.revision).0,
          (items_since_counts now r.revision).1 ∙ sym size,
          (λ fits. (kept, entries ∙ back (omega (arith, size)))),
          (λ lost. absurd (omega (arith, size, rev))),
        )
        | inr (dropped, entries, why) ↦ (
          (items_since_counts now r.revision).0,
          (items_since_counts now r.revision).1 ∙ sym size,
          (λ fits. absurd (omega (arith, size, rev))),
          (λ lost. (dropped, entries)),
        )
      ]

-- Whatever is written to a new ring, it retains the last `limit` items of it, in order, and nothing
-- if the limit is not positive.
pub retained_items-new {ℓ} :
    {A : Type ℓ} (limit : ℤ) (xs : List A)
    → pos_part limit < 2 ^ 63
    → retained_items (add_all (new limit) xs) ≡ last_n (pos_part limit) xs
unfolding new retained_items
retained_items-new limit xs h = retained_items-add_all (new limit) xs (new-IsValid limit h)
