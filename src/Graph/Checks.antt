-- ===== src/Graph/Checks.antt =====
-- The first half of `ValidateGraph`: the dependencies of each process by themselves.
use process_deck.Base.{◌≡◌, refl, subst, inl, inr, true, false, List, [], ◌∷◌, Bool-cases, arith}
use process_deck.Base.Result.{Result, ok, err, >>=-eq-ok}
use process_deck.Base.Text.{Text, same, same_iff, same_self, member, AllIn}
use process_deck.Graph.{
  Deps, deps_of, keys, check_deps, check_names, GraphError, depends_on_itself, unknown_process,
  depends_twice, cycle_detected, unresolved, no_fuel,
}
use process_deck.Graph.Paths.{IsCycle}

-- No process names a dependency twice.
abbrev pub NoRepeats : List Text → Type 0
NoRepeats [] = Unit
NoRepeats (x ∷ xs) = (member x xs ≡ false) × NoRepeats xs

module _ (known : List Text) (name : Text) where
  -- The dependencies that pass, given those seen before.
  pub record Passes (seen deps : List Text) : Type 0 where
    pub others : AllIn (λ dep. same name dep ≡ false) deps
    pub listed : AllIn (λ dep. member dep known ≡ true) deps
    pub new : AllIn (λ dep. member dep seen ≡ false) deps
    pub distinct : NoRepeats deps

  check_deps-eq-ok :
      (seen deps : List Text) → check_deps known name seen deps ≡ ok tt → Passes seen deps
  unfolding check_deps member
  check_deps-eq-ok seen [] h = record {
    others = λ d e. cc;
    listed = λ d e. cc;
    new = λ d e. cc;
    distinct = tt;
  }
  check_deps-eq-ok seen (dep ∷ deps) h =
      let rest = check_deps-eq-ok (dep ∷ seen) deps (ground arith) in
      record {
        others = λ d e. ground (arith, same_iff d dep, rest.others d);
        listed = λ d e. ground (arith, same_iff d dep, rest.listed d);
        new = λ d e. ground (arith, same_iff d dep, rest.new d);
        distinct = (ground (arith, same_self dep, rest.new dep), rest.distinct);
      }

  Passes-check_deps :
      (seen deps : List Text) → Passes seen deps → check_deps known name seen deps ≡ ok tt
  unfolding check_deps member
  Passes-check_deps seen [] p = refl
  Passes-check_deps seen (dep ∷ deps) p =
      let tail : Passes (dep ∷ seen) deps = record {
        others = λ d e. p.others d (ground arith);
        listed = λ d e. p.listed d (ground arith);
        new = λ d e. ground (arith, same_iff d dep, p.new d, p.distinct);
        distinct = p.distinct.1;
      } in
      ground (
        arith,
        same_self dep,
        p.others dep,
        p.listed dep,
        p.new dep,
        Passes-check_deps (dep ∷ seen) deps tail,
      )

-- What each error says of the graph.
abbrev pub Explains : Deps → GraphError → Type 0
Explains deps (depends_on_itself name) = member name (deps_of deps name) ≡ true
Explains deps (unknown_process name dep) =
    (member dep (deps_of deps name) ≡ true) × (member dep (keys deps) ≡ false)
Explains deps (depends_twice name dep) =
    (member dep (deps_of deps name) ≡ true) × ¬ NoRepeats (deps_of deps name)
Explains deps (cycle_detected cycle) = IsCycle deps cycle
Explains deps unresolved = ⊥
Explains deps no_fuel = ⊥

module _ (known : List Text) (name : Text) where
  -- The same of the dependencies of one process, given those seen before.
  abbrev pub Faults : (seen deps : List Text) → GraphError → Type 0
  Faults seen deps (depends_on_itself n) = (n ≡ name) × (member name deps ≡ true)
  Faults seen deps (unknown_process n dep) =
      (n ≡ name) × (member dep deps ≡ true) × (member dep known ≡ false)
  Faults seen deps (depends_twice n dep) =
      (n ≡ name)
      × (member dep deps ≡ true)
      × (AllIn (λ d. member d seen ≡ false) deps → NoRepeats deps → ⊥)
  Faults seen deps _ = ⊥

  Faults-cons :
      (seen deps : List Text) (dep : Text)
      → member dep seen ≡ false
      → (e : GraphError) → Faults (dep ∷ seen) deps e
      → Faults seen (dep ∷ deps) e
  unfolding member
  Faults-cons seen deps dep first (depends_on_itself n) (at, listed) = (at, ground arith)
  Faults-cons seen deps dep first (unknown_process n d) (at, listed, absent) =
      (at, ground arith, absent)
  Faults-cons seen deps dep first (depends_twice n d) (at, listed, clash) = (
    at,
    ground arith,
    λ new distinct.
        clash (λ other h. ground (arith, new other, same_iff other dep, distinct.0, h)) distinct.1,
  )
  Faults-cons seen deps dep first _ f = absurd f

  check_deps-Faults :
      (seen deps : List Text) (e : GraphError)
      → check_deps known name seen deps ≡ err e
      → Faults seen deps e
  unfolding check_deps member
  check_deps-Faults seen [] e h = cc
  check_deps-Faults seen (dep ∷ deps) e h = elim (Bool-cases (same name dep)) [
    | inl self ↦
        subst (Faults seen (dep ∷ deps)) {x = depends_on_itself name} (ground arith)
          (refl, ground (arith, same_iff name dep, same_self name))
    | inr other ↦ elim (Bool-cases (member dep known)) [
      | inr absent ↦
          subst (Faults seen (dep ∷ deps)) {x = unknown_process name dep} (ground arith)
            (refl, ground (arith, same_self dep), absent)
      | inl listed ↦ elim (Bool-cases (member dep seen)) [
        | inl again ↦ subst (Faults seen (dep ∷ deps)) {x = depends_twice name dep} (ground arith) (
          refl,
          ground (arith, same_self dep),
          λ new distinct. ground (arith, new dep, same_self dep, again),
        )
        | inr first ↦
            Faults-cons seen deps dep first e (check_deps-Faults (dep ∷ seen) deps e (ground arith))
      ]
    ]
  ]

module _ (deps : Deps) where
  pub check_names-eq-ok :
      (known names : List Text)
      → check_names deps known names ≡ ok tt
      → AllIn (λ name. Passes known name [] (deps_of deps name)) names
  unfolding check_names member
  check_names-eq-ok known [] h other m = cc
  check_names-eq-ok known (name ∷ names) h other m =
      let (_, here, rest) =
        >>=-eq-ok (check_deps known name [] (deps_of deps name)) (λ _. check_names deps known names)
          h in
      elim (Bool-cases (same other name)) [
        | inl e ↦
            rw ((same_iff other name).0 e)
              (check_deps-eq-ok known name [] (deps_of deps name) (ground arith))
        | inr e ↦ check_names-eq-ok known names rest other (ground arith)
      ]

  pub check_names-of_Passes :
      (known names : List Text)
      → AllIn (λ name. Passes known name [] (deps_of deps name)) names
      → check_names deps known names ≡ ok tt
  unfolding check_names member
  check_names-of_Passes known [] h = refl
  check_names-of_Passes known (name ∷ names) h =
      rw
        (Passes-check_deps known name [] (deps_of deps name)
          (h name (ground (arith, same_self name))))
        (check_names-of_Passes known names (λ other m. h other (ground arith)))

  pub check_names-Faults :
      (known names : List Text) (e : GraphError)
      → check_names deps known names ≡ err e
      → (name : Text) × (member name names ≡ true) × Faults known name [] (deps_of deps name) e
  unfolding check_names member
  check_names-Faults known [] e h = cc
  check_names-Faults known (name ∷ names) e h =
      by_result (λ h'. check_names-Faults known names e h')
        (check_deps known name [] (deps_of deps name)) refl
    where
      by_result :
          (check_names deps known names ≡ err e
            → (n : Text) × (member n names ≡ true) × Faults known n [] (deps_of deps n) e)
          → (r : Result GraphError (Unit {0})) → check_deps known name [] (deps_of deps name) ≡ r
          → (n : Text) × (member n (name ∷ names) ≡ true) × Faults known n [] (deps_of deps n) e
      by_result next (ok _) c = let (n, m, f) = next (ground arith) in (n, ground arith, f)
      by_result next (err e') c = (
        name,
        ground (arith, same_self name),
        check_deps-Faults known name [] (deps_of deps name) e (ground arith),
      )
