-- ===== src/Main/Places.antt =====
-- The places of events in the log of a process, and what one round of the loop does with them.
use process_deck.Base.{
  ℕ, ◌≤◌, ◌<◌, ◌≡◌, refl, sym, ap, ◌∙◌, Bool, true, false, ◌&&◌, List, [], ◌∷◌, if◌then◌else◌, ltb,
  max, arith, if_ind, Bool-cases, inl, inr, subst,
}
use process_deck.Base.Text.{Text, same, same_iff, same_sym}
use process_deck.Session.{Received}
use process_deck.Main.{Cursors, set_cursor, after_history, is_placed}

-- The places in the log of `name` that events have, and the events that have no place.
abbrev pub places : Text → List Received → List ℕ
places name [] = []
places name (r ∷ rs) =
    if is_placed r.event && same r.event.process name
    then r.event.log_cursor ∷ places name rs
    else places name rs

abbrev pub unplaced : List Received → List Received
unplaced [] = []
unplaced (r ∷ rs) = if is_placed r.event then unplaced rs else r ∷ unplaced rs

abbrev pub Increases : ℕ → List ℕ → Type 0
Increases low [] = Unit
Increases low (c ∷ cs) = (low < c) × Increases c cs

abbrev pub above : ℕ → List ℕ → List ℕ
above low [] = []
above low (c ∷ cs) = if ltb low c then c ∷ above low cs else above low cs

pub Increases-from :
    {low high : ℕ} (cs : List ℕ) → low ≤ high → Increases high cs → Increases low cs
Increases-from [] le h = tt
Increases-from (c ∷ cs) le (h, more) = (omega arith, more)

pub above-all : (low : ℕ) (cs : List ℕ) → Increases low cs → above low cs ≡ cs
above-all low [] h = refl
above-all low (c ∷ cs) (h, more) =
    ground (arith, above-all low cs (Increases-from cs (omega arith) more))

-- What one round does to the cursor of a process.
pub set_cursor-other :
    (cursors : Cursors) (name other : Text) (c : ℕ)
    → same name other ≡ false
    → set_cursor cursors name c other ≡ cursors other
unfolding set_cursor
set_cursor-other cursors name other c h = ground (arith, same_sym name other)

pub set_cursor-same :
    (cursors : Cursors) (name other : Text) (c : ℕ)
    → same name other ≡ true
    → set_cursor cursors name c other ≡ c
unfolding set_cursor
set_cursor-same cursors name other c h = ground (arith, same_sym name other)

module _ (name : Text) where
  abbrev pub is_mine : Received → Bool
  is_mine r = is_placed r.event && same r.event.process name

  pub places-mine :
      (r : Received) (rs : List Received)
      → is_mine r ≡ true
      → places name (r ∷ rs) ≡ r.event.log_cursor ∷ places name rs
  places-mine r rs mine =
      if_ind (λ l. l ≡ r.event.log_cursor ∷ places name rs) (is_mine r) (λ h. refl) (λ h. cc)

  pub places-other :
      (r : Received) (rs : List Received)
      → is_mine r ≡ false
      → places name (r ∷ rs) ≡ places name rs
  places-other r rs other = if_ind (λ l. l ≡ places name rs) (is_mine r) (λ h. cc) (λ h. refl)

  above-old : (low c : ℕ) (cs : List ℕ) → c ≤ low → above low (c ∷ cs) ≡ above low cs
  above-old low c cs le = ground arith

  above-newer : (low c : ℕ) (cs : List ℕ) → low < c → Increases c cs → above low (c ∷ cs) ≡ c ∷ cs
  above-newer low c cs lt h = above-all low (c ∷ cs) (lt, h)

  -- A round that prints nothing, and one that prints.
  pub above-passed :
      (cursors : Cursors) (r : Received) (rs : List Received) {printed : List ℕ} (low : ℕ)
      → r.event.log_cursor ≤ cursors r.event.process
      → ((from : ℕ)
          → Increases from (places name rs)
          → printed ≡ above (cursors name) (places name rs))
      → Increases low (places name (r ∷ rs))
      → printed ≡ above (cursors name) (places name (r ∷ rs))
  above-passed cursors r rs low old rest h = elim (Bool-cases (is_mine r)) [
    | inl mine ↦
        let (lt, more) = subst (Increases low) (places-mine r rs mine) h in
        let this : same r.event.process name ≡ true = ground arith in
        let same_cursor = ap cursors ((same_iff r.event.process name).0 this) in
        rest r.event.log_cursor more
        ∙ sym (
            ap (above (cursors name)) (places-mine r rs mine)
            ∙ above-old (cursors name) r.event.log_cursor (places name rs)
                (omega (arith, same_cursor)))
    | inr other ↦
        rest low (subst (Increases low) (places-other r rs other) h)
        ∙ ap (above (cursors name)) (sym (places-other r rs other))
  ]

  pub above-shown :
      (cursors : Cursors) (r : Received) (rs printed : List Received) (low : ℕ)
      → is_placed r.event ≡ true
      → cursors r.event.process < r.event.log_cursor
      → ((from : ℕ)
          → Increases from (places name rs)
          → places name printed
            ≡ above (set_cursor cursors r.event.process r.event.log_cursor name) (places name rs))
      → Increases low (places name (r ∷ rs))
      → places name (r ∷ printed) ≡ above (cursors name) (places name (r ∷ rs))
  above-shown cursors r rs printed low placed newer rest h = elim (Bool-cases (is_mine r)) [
    | inl mine ↦
        let c = r.event.log_cursor in
        let (lt, more) = subst (Increases low) (places-mine r rs mine) h in
        let this : same r.event.process name ≡ true = ground arith in
        let same_cursor = ap cursors ((same_iff r.event.process name).0 this) in
        places-mine r printed mine
        ∙ ap (λ l. c ∷ l)
            (rest c more
              ∙ ap (λ n. above n (places name rs))
                  (set_cursor-same cursors r.event.process name c this)
              ∙ above-all c (places name rs) more)
        ∙ sym (
            ap (above (cursors name)) (places-mine r rs mine)
            ∙ above-newer (cursors name) c (places name rs) (omega (arith, same_cursor)) more)
    | inr other ↦
        places-other r printed other
        ∙ rest low (subst (Increases low) (places-other r rs other) h)
        ∙ ap (λ n. above n (places name rs))
            (set_cursor-other cursors r.event.process name r.event.log_cursor (ground arith))
        ∙ ap (above (cursors name)) (sym (places-other r rs other))
  ]

pub unplaced-cons :
    (r : Received) (rs : List Received)
    → is_placed r.event ≡ false
    → unplaced (r ∷ rs) ≡ r ∷ unplaced rs
unplaced-cons r rs h = if_ind (λ l. l ≡ r ∷ unplaced rs) (is_placed r.event) (λ t. cc) (λ f. refl)

pub unplaced-placed :
    (r : Received) (rs : List Received) → is_placed r.event ≡ true → unplaced (r ∷ rs) ≡ unplaced rs
unplaced-placed r rs h = if_ind (λ l. l ≡ unplaced rs) (is_placed r.event) (λ t. refl) (λ f. cc)

abbrev pub AtMost : ℕ → List ℕ → Type 0
AtMost high [] = Unit
AtMost high (c ∷ cs) = (c ≤ high) × AtMost high cs

pub after_history-grows :
    (name : Text) (cursors : Cursors) (history : List Received)
    → (cursors name ≤ after_history cursors history name)
      × AtMost (after_history cursors history name) (places name history)
unfolding after_history
after_history-grows name cursors [] = (omega arith, tt)
after_history-grows name cursors (r ∷ rs) =
    let top = max (cursors r.event.process) r.event.log_cursor in
    let cursors' = set_cursor cursors r.event.process top in
    let after = after_history cursors' rs name in
    let (grows, bounded) = after_history-grows name cursors' rs in
    elim (Bool-cases (same r.event.process name)) [
      | inl this ↦
          let here = set_cursor-same cursors r.event.process name top this in
          let same_cursor = ap cursors ((same_iff r.event.process name).0 this) in
          (
            omega (arith, here, same_cursor, grows),
            if_ind (AtMost after) (is_placed r.event && same r.event.process name)
                (λ mine. (omega (arith, here, grows), bounded)) (λ other. bounded),
          )
      | inr that ↦
          let here = set_cursor-other cursors r.event.process name top that in
          (
            omega (arith, here, grows),
            if_ind (AtMost after) (is_placed r.event && same r.event.process name)
                (λ mine. absurd (ground arith)) (λ other. bounded),
          )
    ]
