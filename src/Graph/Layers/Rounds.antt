-- ===== src/Graph/Layers/Rounds.antt =====
-- One round of the loop of `StartupLayers`: the names that are left, and that a round places one.
use process_deck.Base.{
  ℕ, ◌+◌, ◌≡◌, refl, sym, subst, inl, inr, Bool, true, false, not, ◌&&◌, List, [], ◌∷◌, ◌++◌,
  length, Bool-cases, if◌then◌else◌, arith,
}
use process_deck.Base.Text.{Text, same, same_iff, same_self, member, member-append, AllIn}
use process_deck.Graph.{
  Deps, deps_of, unseen, active, finished, Marks, mark_of, dependencies_done, next_layer,
}
use process_deck.Graph.Marking.{IsOrdered}
use process_deck.Graph.Visit.{IsClosed}

pub dependencies_done-mem :
    (deps done : List Text) (d : Text)
    → dependencies_done deps done ≡ true
    → member d deps ≡ true
    → member d done ≡ true
unfolding dependencies_done member
dependencies_done-mem [] done d h m = cc
dependencies_done-mem (dep ∷ deps) done d h m =
    ground (arith, same_iff d dep, dependencies_done-mem deps done d)

pub dependencies_done-of_AllIn :
    (deps done : List Text)
    → AllIn (λ d. member d done ≡ true) deps
    → dependencies_done deps done ≡ true
unfolding dependencies_done member
dependencies_done-of_AllIn [] done h = refl
dependencies_done-of_AllIn (dep ∷ deps) done h =
    ground (
      arith,
      same_self dep,
      h dep,
      dependencies_done-of_AllIn deps done (λ d m. h d (ground arith)),
    )

pub member_head : (name : Text) (names : List Text) → member name (name ∷ names) ≡ true
unfolding member
member_head name names = ground (arith, same_self name)

pub member_behind :
    (name other : Text) (names : List Text)
    → member name names ≡ true
    → member name (other ∷ names) ≡ true
unfolding member
member_behind name other names h = ground arith

module _ (deps : Deps) where
  abbrev pub ready : (done : List Text) → Text → Bool
  ready done name = not (member name done) && dependencies_done (deps_of deps name) done

  pub member-next_layer :
      (done names : List Text) (name : Text)
      → member name (next_layer deps done names) ≡ (ready done name && member name names)
  unfolding next_layer member
  member-next_layer done [] name = ground arith
  member-next_layer done (x ∷ names) name =
      ground (arith, same_iff name x, member-next_layer done names name)

  -- How many of the names are not done.
  pub left : (done names : List Text) → ℕ
  left done [] = 0
  left done (name ∷ names) = if member name done then left done names else left done names + 1

  -- A round takes as many names as it finds ready.
  pub left-append :
      (done layer names : List Text)
      → AllIn (λ n. member n layer ≡ ready done n) names
      → length (next_layer deps done names) + left (done ++ layer) names ≡ left done names
  unfolding left next_layer
  left-append done layer [] all = refl
  left-append done layer (name ∷ names) all =
      let here = all name (member_head name names) in
      ground (
        arith,
        here,
        member-append name done layer,
        left-append done layer names (λ n m. all n (member_behind n name names m)),
      )

  pub left_none :
      (done names : List Text) (n : Text)
      → left done names ≡ 0
      → member n names ≡ true
      → member n done ≡ true
  unfolding left member
  left_none done [] n h m = cc
  left_none done (name ∷ names) n h m = ground (arith, same_iff n name, left_none done names n)

  pub left_nil : (names : List Text) → left [] names ≡ length names
  unfolding left member
  left_nil [] = refl
  left_nil (x ∷ xs) = ground (arith, left_nil xs)

  pub left_zero :
      (done names : List Text) → AllIn (λ n. member n done ≡ true) names → left done names ≡ 0
  unfolding left member
  left_zero done [] h = refl
  left_zero done (x ∷ xs) h =
      ground (arith, same_self x, h x, left_zero done xs (λ n m. h n (ground arith)))

  pub next_layer_empty :
      (done names : List Text) (n : Text)
      → length (next_layer deps done names) ≡ 0
      → member n names ≡ true
      → ready done n ≡ false
  unfolding next_layer member
  next_layer_empty done [] n h m = cc
  next_layer_empty done (x ∷ xs) n h m = ground (arith, same_iff n x, next_layer_empty done xs n)

  -- If no name is ready, then in the order of finishing each one turns out to be done.
  pub finished_done :
      (done names : List Text)
      → AllIn (λ n. ready done n ≡ false) names
      → IsClosed deps names
      → (marks : Marks) → IsOrdered deps marks
      → (name : Text) → member name names ≡ true
      → mark_of marks name ≡ finished
      → member name done ≡ true
  unfolding mark_of
  finished_done done names idle closed [] ordered name m f = cc
  finished_done done names idle closed ((other, unseen) ∷ marks) ordered name m f = absurd ordered
  finished_done done names idle closed ((other, active) ∷ marks) ordered name m f =
      finished_done done names idle closed marks ordered name m (ground arith)
  finished_done done names idle closed ((other, finished) ∷ marks) (before, ordered) name m f =
      elim (Bool-cases (same other name)) [
        | inr e ↦ finished_done done names idle closed marks ordered name m (ground arith)
        | inl e ↦
            let deps_done : AllIn (λ d. member d done ≡ true) (deps_of deps name) = λ d listed.
              finished_done done names idle closed marks ordered d (closed name m d listed) (
                before d (
                  subst (λ n. member d (deps_of deps n) ≡ true) (sym ((same_iff other name).0 e))
                    listed)) in
            ground
              (arith, idle name m, dependencies_done-of_AllIn (deps_of deps name) done deps_done)
      ]
