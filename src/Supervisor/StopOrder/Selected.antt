-- ===== src/Supervisor/StopOrder/Selected.antt =====
-- What `visit` of `stopOrder` in internal/supervisor/supervisor.go collects.
use process_deck.Base.{
  ℕ, zero, suc, ◌≤◌, ◌<◌, ◌≡◌, refl, sym, subst, ◌⊎◌, inl, inr, true, false, Bool-cases, List, [],
  ◌∷◌, Option, some, if◌then◌else◌, arith,
}
use process_deck.Base.Text.{Text, same, same_iff, same_self, member}
use process_deck.Graph.{Deps, keys, dependents_of}
use process_deck.Graph.Dependents.{dependents_of-key}
use process_deck.Supervisor.Commands.{select_all, select}

-- The keys of a list that are not selected yet.
abbrev pub unselected : List Text → List Text → ℕ
unselected selected [] = 0
unselected selected (name ∷ names) =
    if member name selected then unselected selected names else suc (unselected selected names)

abbrev pub Within : List Text → List Text → Type 0
Within xs ys = (x : Text) → member x xs ≡ true → member x ys ≡ true

pub unselected-Within :
    (xs ys names : List Text) → Within xs ys → unselected ys names ≤ unselected xs names
unselected-Within xs ys [] w = omega arith
unselected-Within xs ys (n ∷ names) w = ground (arith, w n, unselected-Within xs ys names w)

-- A name that is selected is counted no more.
pub unselected-cons :
    (name : Text) (selected names : List Text)
    → member name names ≡ true
    → member name selected ≡ false
    → unselected (name ∷ selected) names < unselected selected names
unfolding member
unselected-cons name selected [] m new = absurd (ground arith)
unselected-cons name selected (n ∷ names) m new = ground (
  arith,
  same_iff name n,
  same_iff n name,
  unselected-cons name selected names,
  unselected-Within selected (name ∷ selected) names (λ x h. ground arith),
)

pub member-cases :
    (x name : Text) (names : List Text)
    → member x (name ∷ names) ≡ true
    → (name ≡ x) ⊎ (member x names ≡ true)
unfolding member
member-cases x name names m = ground (arith, same_iff x name)

module _ (deps : Deps) where
  -- A process and those that depend on it, directly or through others.
  pub data Reaches (name : Text) : Text → Type 0 where
    itself : Reaches name name
    dependent :
        {x y : Text} → Reaches name x → member y (dependents_of deps x) ≡ true → Reaches name y

  pub Reaches-before :
      {name next x : Text}
      → member next (dependents_of deps name) ≡ true
      → Reaches next x
      → Reaches name x
  Reaches-before h itself = dependent itself h
  Reaches-before h (dependent r k) = dependent (Reaches-before h r) k

  -- What a visit adds to the selection.
  pub record IsSelection (R : Text → Type 0) (before after : List Text) : Type 0 where
    pub grows : Within before after
    pub reached : (x : Text) → member x after ≡ true → (member x before ≡ true) ⊎ R x
    pub closed :
        (x : Text)
        → member x after ≡ true
        → (member x before ≡ true) ⊎ Within (dependents_of deps x) after

  pub IsSelection-trans :
      {R S T : Text → Type 0} {before mid after : List Text}
      → ((x : Text) → R x → T x)
      → ((x : Text) → S x → T x)
      → IsSelection R before mid
      → IsSelection S mid after
      → IsSelection T before after
  IsSelection-trans f g a b = record {
    grows = λ x h. b.grows x (a.grows x h);
    reached = λ x h. elim (b.reached x h) [
      | inr r ↦ inr (g x r)
      | inl m ↦ elim (a.reached x m) [ inl old ↦ inl old | inr r ↦ inr (f x r) ]
    ];
    closed = λ x h. elim (b.closed x h) [
      | inr w ↦ inr w
      | inl m ↦ elim (a.closed x m) [ inl old ↦ inl old | inr w ↦ inr (λ y k. b.grows y (w y k)) ]
    ];
  }

  -- What `visit` does with enough fuel.
  unfoldable pub Visits : ℕ → (List Text → Text → Option (List Text)) → Type 0
  Visits bound visit =
      (selected : List Text) (name : Text)
      → member name (keys deps) ≡ true
      → unselected selected (keys deps) < bound
      → (after : List Text) × (visit selected name ≡ some after)
        × IsSelection (Reaches name) selected after
        × (member name after ≡ true)

  pub select_all-Visits :
      (bound : ℕ) (visit : List Text → Text → Option (List Text)) (names selected : List Text)
      → Visits bound visit
      → Within names (keys deps)
      → unselected selected (keys deps) < bound
      → (after : List Text) × (select_all visit selected names ≡ some after)
        × IsSelection (λ x. (n : Text) × (member n names ≡ true) × Reaches n x) selected after
        × Within names after
  unfolding select_all member Visits
  select_all-Visits bound visit [] selected v w enough = (
    selected,
    refl,
    record { grows = λ x h. h; reached = λ x h. inl h; closed = λ x h. inl h },
    λ x h. absurd (ground arith),
  )
  select_all-Visits bound visit (n ∷ names) selected v w enough =
      let (mid, ran, first, has) = v selected n (w n (ground (arith, same_self n))) enough in
      let (after, rest_ran, rest, all) =
        select_all-Visits bound visit names mid v (λ x h. w x (ground arith))
          (omega (arith, unselected-Within selected mid (keys deps) first.grows)) in
      (
        after,
        rw (select_all, ran) rest_ran,
        IsSelection-trans (λ x r. (n, ground (arith, same_self n), r))
            (λ x r. (r.0, ground (arith, r.1), r.2)) first rest,
        λ x h. elim (Bool-cases (same x n)) [
          | inl here ↦
              subst (λ y. member y after ≡ true) (sym ((same_iff x n).0 here)) (rest.grows n has)
          | inr behind ↦ all x (ground arith)
        ],
      )

  pub dependents-Within : (name : Text) → Within (dependents_of deps name) (keys deps)
  dependents-Within name x h = dependents_of-key deps name x h

  pub select-Visits : (fuel : ℕ) → Visits fuel (select fuel deps)
  unfolding Visits select member
  select-Visits zero selected name known enough = absurd (omega arith)
  select-Visits (suc fuel) selected name known enough = elim (Bool-cases (member name selected)) [
    | inl old ↦ (
      selected,
      rw old refl,
      record { grows = λ x h. h; reached = λ x h. inl h; closed = λ x h. inl h },
      old,
    )
    | inr new ↦
        let fewer = unselected-cons name selected (keys deps) known new in
        let (after, ran, inner, all) =
          select_all-Visits fuel (select fuel deps) (dependents_of deps name) (name ∷ selected)
            (select-Visits fuel) (dependents-Within name) (omega (arith, fewer)) in
        (
          after,
          rw new ran,
          record {
            grows = λ x h. inner.grows x (ground arith);
            reached = λ x h. elim (inner.reached x h) [
              | inr (n, m, r) ↦ inr (Reaches-before m r)
              | inl m ↦ elim (member-cases x name selected m) [
                | inl e ↦ inr (subst (Reaches name) e itself)
                | inr old ↦ inl old
              ]
            ];
            closed = λ x h. elim (inner.closed x h) [
              | inr w ↦ inr w
              | inl m ↦ elim (member-cases x name selected m) [
                | inl e ↦ inr (subst (λ y. Within (dependents_of deps y) after) e all)
                | inr old ↦ inl old
              ]
            ];
          },
          inner.grows name (ground (arith, same_self name)),
        )
  ]

  pub Reaches-selected :
      {after : List Text} {name x : Text}
      → IsSelection (Reaches name) [] after
      → member name after ≡ true
      → Reaches name x
      → member x after ≡ true
  unfolding member
  Reaches-selected s has itself = has
  Reaches-selected s has (dependent {x = x} {y = y} r k) =
      elim (s.closed x (Reaches-selected s has r)) [
        | inl old ↦ absurd (ground arith)
        | inr w ↦ w y k
      ]

  pub Reaches-key :
      {name x : Text}
      → member name (keys deps) ≡ true
      → Reaches name x
      → member x (keys deps) ≡ true
  Reaches-key known itself = known
  Reaches-key known (dependent {x = x} {y = y} r k) = dependents_of-key deps x y k
