-- ===== src/LogBuf/Contents.antt =====
-- What a ring holds, oldest first: its array turned to its start, and what `Add` does to that.
use process_deck.Base.{
  ℕ, zero, suc, ◌+◌, ◌-◌, ◌%◌, ◌≤◌, ◌<◌, ◌≡◌, refl, sym, ap, ap₂, ◌∙◌, ◌⊎◌, inl, inr, List, [], ◌∷◌,
  ◌++◌, append-nil, append_assoc, some, length, length-append, length-set, length-drop, length-take,
  set, take, drop, get_elem?, get_elem?-append_lt, get_elem?-append_ge, get_elem?-drop,
  get_elem?-take, get_elem?-of_lt, drop_of_get_elem?, drop-set, take-set, drop_all, take_all,
  last_n, ltb, ◌==◌, true, false, Bool-cases, arith,
}
use process_deck.Base.Int.{pos_part}
use process_deck.LogBuf.{Ring, add, store, collect, retained_items}
use process_deck.LogBuf.Inv.{IsValid, add-IsValid}
use native.Mathlib.Nat.{mod-eq_of_lt, mod-eq-sub-mod}
use native.Mathlib.Decide.{dec_lt}

module _ {ℓ} {A : Type ℓ} where
  abbrev pub rotate : ℕ → List A → List A
  rotate s xs = drop s xs ++ take s xs

  length-rotate : (s : ℕ) (xs : List A) → length (rotate s xs) ≡ length xs
  length-rotate s xs =
      omega (arith, length-append (drop s xs) (take s xs), length-drop s xs, length-take s xs)

  get_elem?-rotate :
      (s : ℕ) (xs : List A) (i : ℕ)
      → s ≤ length xs
      → i < length xs
      → get_elem? (rotate s xs) i ≡ get_elem? xs ((s + i) % length xs)
  get_elem?-rotate s xs i hs hi = elim (dec_lt (s + i) (length xs)) [
    | yes p ↦
        get_elem?-append_lt (drop s xs) (take s xs) i (omega (arith, length-drop s xs))
        ∙ get_elem?-drop s xs i
        ∙ ap (get_elem? xs) (sym (mod-eq_of_lt p))
    | no p ↦
        get_elem?-append_ge (drop s xs) (take s xs) i (omega (arith, length-drop s xs))
        ∙ get_elem?-take s xs _ (omega (arith, length-drop s xs))
        ∙ ap (get_elem? xs) {x = i - length (drop s xs)} (
            omega (
              arith,
              length-drop s xs,
              mod-eq-sub-mod {n = s + i} {m = length xs} (omega arith),
              mod-eq_of_lt {n = s + i - length xs} {m = length xs} (omega arith),
            ))
  ]

  pub collect-rotate :
      (xs : List A) (s n i : ℕ)
      → s ≤ length xs
      → n + i ≡ length xs
      → collect xs s n i ≡ drop i (rotate s xs)
  unfolding collect
  collect-rotate xs s zero i hs e =
      sym (drop_all i (rotate s xs) (omega (arith, length-rotate s xs)))
  collect-rotate xs s (suc n) i hs e =
      let (x, got) = get_elem?-of_lt (rotate s xs) i (omega (arith, length-rotate s xs)) in
      let here : get_elem? xs ((s + i) % length xs) ≡ some x =
        sym (get_elem?-rotate s xs i hs (omega arith)) ∙ got in
      rw (here, collect)
        (ap (λ l. x ∷ l)
            (collect-rotate xs s n (i + 1) hs (omega arith)
              ∙ ap (λ k. drop k (rotate s xs)) {y = suc i} (omega arith))
          ∙ sym (drop_of_get_elem? (rotate s xs) i got))

  -- The array turned to its start is what the ring retains.
  pub retained_items-rotate : {r : Ring A} → IsValid r → retained_items r ≡ rotate r.start r.items
  unfolding retained_items
  retained_items-rotate {r} v = elim (Bool-cases (length r.items == 0)) [
    | inl e ↦
        rw e (
          sym (drop_all 0 (rotate r.start r.items) (ground (arith, length-rotate r.start r.items))))
    | inr e ↦ rw e (collect-rotate r.items r.start (length r.items) 0 (ground arith) (ground arith))
  ]

  rotate-mod :
      (s c : ℕ) (xs : List A) → s < c → length xs ≡ c → rotate ((s + 1) % c) xs ≡ rotate (suc s) xs
  rotate-mod s c xs h e = elim (dec_lt (s + 1) c) [
    | yes p ↦ ap (λ k. rotate k xs) {y = suc s} (omega (arith, mod-eq_of_lt p))
    | no p ↦
        let turn : (s + 1) % c ≡ 0 = omega (
          arith,
          mod-eq-sub-mod {n = s + 1} {m = c} (omega arith),
          mod-eq_of_lt {n = s + 1 - c} {m = c} (omega arith),
        ) in
        ap (λ k. rotate k xs) turn
        ∙ append-nil xs
        ∙ sym (take_all (suc s) xs (omega arith))
        ∙ ap (λ l. l ++ take (suc s) xs) (sym (drop_all (suc s) xs (omega arith)))
  ]

  -- Overwriting the oldest item of a full array.
  rotate-set :
      (s c : ℕ) (xs : List A) (x : A)
      → s < c
      → length xs ≡ c
      → rotate ((s + 1) % c) (set xs s x) ≡ last_n c (rotate s xs ++ (x ∷ []))
  rotate-set s c xs x h e =
      let (y, got) = get_elem?-of_lt xs s (omega arith) in
      let size : length (rotate s xs ++ (x ∷ [])) - c ≡ 1 =
        omega (arith, length-append (rotate s xs) (x ∷ []), length-rotate s xs) in
      rotate-mod s c (set xs s x) h (length-set xs s x ∙ e)
      ∙ ap (λ l. l ++ take (suc s) (set xs s x)) (drop-set xs s x)
      ∙ ap (λ l. drop (suc s) xs ++ l) (take-set xs s x (omega arith))
      ∙ sym (append_assoc (drop (suc s) xs) (take s xs) (x ∷ []))
      ∙ ap (λ l. drop 1 ((l ++ take s xs) ++ (x ∷ []))) (sym (drop_of_get_elem? xs s got))
      ∙ ap (λ k. drop k (rotate s xs ++ (x ∷ []))) (sym size)

  rotate-store :
      (r : Ring A) (x : A)
      → IsValid r
      → 0 < pos_part r.limit
      → rotate (store r x).start (store r x).items
        ≡ last_n (pos_part r.limit) (rotate r.start r.items ++ (x ∷ []))
  unfolding store
  rotate-store r x v h = elim (Bool-cases (ltb (length r.items) (pos_part r.limit))) [
    | inl room ↦
        let s0 : r.start ≡ 0 = ground arith in
        let fits : length ((r.items ++ []) ++ (x ∷ [])) - pos_part r.limit ≡ 0 =
          ground (arith, length-append (r.items ++ []) (x ∷ []), length-append r.items []) in
        rw room (
          ap (λ k. rotate k (r.items ++ (x ∷ []))) s0
          ∙ append-nil (r.items ++ (x ∷ []))
          ∙ ap (λ l. l ++ (x ∷ [])) (sym (append-nil r.items))
          ∙ ap (λ k. drop k ((r.items ++ []) ++ (x ∷ []))) (sym fits)
          ∙ ap (λ k. last_n (pos_part r.limit) (rotate k r.items ++ (x ∷ []))) (sym s0))
    | inr full ↦
        rw full (rotate-set r.start (pos_part r.limit) r.items x (ground arith) (ground arith))
  ]

  add-closed :
      (r : Ring A) (x : A)
      → pos_part r.limit == 0 ≡ true
      → ((add r x).items ≡ r.items) × ((add r x).start ≡ r.start)
  unfolding add
  add-closed r x h = rw h (refl, refl)

  add-open :
      (r : Ring A) (x : A)
      → pos_part r.limit == 0 ≡ false
      → ((add r x).items ≡ (store r x).items) × ((add r x).start ≡ (store r x).start)
  unfolding add
  add-open r x h = ground arith

  pub length-retained_items : {r : Ring A} → IsValid r → length (retained_items r) ≡ length r.items
  length-retained_items {r} v = ap length (retained_items-rotate v) ∙ length-rotate r.start r.items

  -- `Add` through the abstract view: the items before, the new one behind them, and of these the last
  -- `limit`. A limit that is not positive retains nothing.
  pub retained_items-add :
      (r : Ring A) (x : A)
      → IsValid r
      → retained_items (add r x) ≡ last_n (pos_part r.limit) (retained_items r ++ (x ∷ []))
  retained_items-add r x v =
      retained_items-rotate (add-IsValid x v)
      ∙ rotate-add (Bool-cases (pos_part r.limit == 0))
      ∙ ap (λ l. last_n (pos_part r.limit) (l ++ (x ∷ []))) (sym (retained_items-rotate v))
    where
      rotate-add :
          (pos_part r.limit == 0 ≡ true) ⊎ (pos_part r.limit == 0 ≡ false)
          → rotate (add r x).start (add r x).items
            ≡ last_n (pos_part r.limit) (rotate r.start r.items ++ (x ∷ []))
      rotate-add (inl none_kept) =
          let (items_eq, start_eq) = add-closed r x none_kept in
          ap₂ rotate start_eq items_eq
          ∙ drop_all 0 (rotate r.start r.items) (ground (arith, length-rotate r.start r.items))
          ∙ sym (drop_all _ (rotate r.start r.items ++ (x ∷ [])) (ground arith))
      rotate-add (inr some_kept) =
          let (items_eq, start_eq) = add-open r x some_kept in
          ap₂ rotate start_eq items_eq ∙ rotate-store r x v (ground arith)
