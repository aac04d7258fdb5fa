-- ===== src/Graph/Valid.antt =====
-- What `ValidateGraph` accepts and what it rejects.
use process_deck.Base.{
  suc, ◌≡◌, ◌↔◌, refl, sym, subst, ◌∙◌, inl, inr, true, List, [], ◌∷◌, none, some, length,
  Bool-cases, arith,
}
use process_deck.Base.Result.{Result, ok, err, >>=-eq-ok}
use process_deck.Base.Text.{Text, same, same_iff, length-sort, member, member-sort, AllIn}
use process_deck.Graph.{
  Deps, deps_of, keys, sorted_keys, finished, Marks, mark_of, Visited, visit_all, check_names,
  cycle_error, validate_graph, GraphError, depends_on_itself, unknown_process, depends_twice,
  cycle_detected, unresolved, no_fuel,
}
use process_deck.Graph.Checks.{
  NoRepeats, Passes, Explains, Faults, check_names-eq-ok, check_names-of_Passes, check_names-Faults,
}
use process_deck.Graph.Acyclic.{Follows, step, IsPath-Follows, finished-not_Follows, Follows-key}
use process_deck.Graph.Paths.{IsCycle}
use process_deck.Graph.Marking.{IsOrdered, unreached}
use process_deck.Graph.Visit.{IsClosed, Outcome, Done, visit_all-Outcome}

-- What a dependency graph has to satisfy.
pub record IsWellFormed (deps : Deps) : Type 0 where
  pub listed : IsClosed deps (keys deps)
  pub distinct : AllIn (λ name. NoRepeats (deps_of deps name)) (keys deps)
  pub acyclic : (name : Text) → ¬ Follows deps name name

pub length-keys : (deps : Deps) → length (keys deps) ≡ length deps
unfolding keys
length-keys [] = refl
length-keys ((key, values) ∷ rest) = omega (arith, length-keys rest)

pub length-sorted_keys : (deps : Deps) → length (sorted_keys deps) ≡ length deps
unfolding sorted_keys
length-sorted_keys deps = length-sort (keys deps) ∙ length-keys deps

unreached-nil : (names : List Text) → unreached [] names ≡ length names
unfolding unreached mark_of
unreached-nil [] = refl
unreached-nil (x ∷ xs) = omega (arith, unreached-nil xs)

module _ (deps : Deps) where
  pub known-keys : (name : Text) → member name (sorted_keys deps) ≡ member name (keys deps)
  unfolding sorted_keys
  known-keys name = member-sort name (keys deps)

  -- What the second half of `ValidateGraph` finds, once the first half has passed.
  search-Outcome :
      IsClosed deps (sorted_keys deps)
      → Outcome deps
          (λ after. Done deps [] (sorted_keys deps) after)
          (visit_all (suc (length deps)) deps (sorted_keys deps) [])
  unfolding mark_of
  search-Outcome closed =
      visit_all-Outcome deps (sorted_keys deps) closed (length deps) (sorted_keys deps) []
        (λ n h. h) tt (λ n h. cc)
        (omega (arith, unreached-nil (sorted_keys deps), length-sorted_keys deps))

  IsCycle-Follows :
      (name : Text) (names : List Text) → IsCycle deps (name ∷ names) → Follows deps name name
  IsCycle-Follows name names (path, ends) = IsPath-Follows deps name name names path ends

  IsClosed-of_Passes :
      AllIn (λ name. Passes (sorted_keys deps) name [] (deps_of deps name)) (sorted_keys deps)
      → IsClosed deps (sorted_keys deps)
  IsClosed-of_Passes passes name m dep h = (passes name m).listed dep h

  module _ (P : Marks → Type 0) where
    Outcome-ok :
        (v : Visited) → Outcome deps P v → cycle_error v ≡ ok tt → (marks : Marks) × P marks
    unfolding cycle_error
    Outcome-ok none o h = absurd o
    Outcome-ok (some ([], marks)) o h = (marks, o)
    Outcome-ok (some (name ∷ names, marks)) o h = cc

    Outcome-err :
        (v : Visited) (e : GraphError) → Outcome deps P v → cycle_error v ≡ err e → Explains deps e
    unfolding cycle_error
    Outcome-err none e o h = absurd o
    Outcome-err (some ([], marks)) e o h = cc
    Outcome-err (some (name ∷ names, marks)) e o h =
        subst (Explains deps) {x = cycle_detected (name ∷ names)} (ground arith) o

    Outcome-acyclic :
        (v : Visited)
        → Outcome deps P v
        → ((name : Text) → ¬ Follows deps name name)
        → cycle_error v ≡ ok tt
    unfolding cycle_error
    Outcome-acyclic none o no_loop = absurd o
    Outcome-acyclic (some ([], marks)) o no_loop = refl
    Outcome-acyclic (some (name ∷ names, marks)) o no_loop =
        absurd (no_loop name (IsCycle-Follows name names o))

  abbrev checks : Result GraphError (Unit {0})
  checks = check_names deps (sorted_keys deps) (sorted_keys deps)

  abbrev searched : Visited
  searched = visit_all (suc (length deps)) deps (sorted_keys deps) []

  abbrev Finished : Marks → Type 0
  Finished marks = Done deps [] (sorted_keys deps) marks

  accepted_parts :
      validate_graph deps ≡ ok tt
      → AllIn (λ name. Passes (sorted_keys deps) name [] (deps_of deps name)) (sorted_keys deps)
        × ((marks : Marks) × Finished marks)
  unfolding validate_graph
  accepted_parts h =
      let (_, checked, ends) = >>=-eq-ok checks (λ _. cycle_error searched) h in
      let passes = check_names-eq-ok deps (sorted_keys deps) (sorted_keys deps) checked in
      (passes, Outcome-ok Finished searched (search-Outcome (IsClosed-of_Passes passes)) ends)

  -- The order in which an accepted graph was finished.
  pub finishing_order :
      validate_graph deps ≡ ok tt
      → (marks : Marks) × IsOrdered deps marks
        × AllIn (λ n. mark_of marks n ≡ finished) (sorted_keys deps)
  finishing_order h =
      let (_, found) = accepted_parts h in let (marks, done) = found in (marks, done.0, done.2)

  pub sorted-IsClosed : validate_graph deps ≡ ok tt → IsClosed deps (sorted_keys deps)
  sorted-IsClosed h = IsClosed-of_Passes (accepted_parts h).0

  pub accepted-IsWellFormed : validate_graph deps ≡ ok tt → IsWellFormed deps
  accepted-IsWellFormed h =
      let (passes, found) = accepted_parts h in
      let (marks, done) = found in
      record {
        listed =
            λ name m dep d. sym (known-keys dep) ∙ (passes name (known-keys name ∙ m)).listed dep d;
        distinct = λ name m. (passes name (known-keys name ∙ m)).distinct;
        acyclic = λ name loop.
            finished-not_Follows deps marks name done.0
              (done.2 name (known-keys name ∙ Follows-key deps loop)) loop;
      }

  IsWellFormed-Passes :
      IsWellFormed deps
      → AllIn (λ name. Passes (sorted_keys deps) name [] (deps_of deps name)) (sorted_keys deps)
  unfolding member
  IsWellFormed-Passes w name m = record {
    others = λ dep d. elim (Bool-cases (same name dep)) [
      | inl e ↦ absurd (
          w.acyclic name (
            step
              (subst (λ x. member x (deps_of deps name) ≡ true) (sym ((same_iff name dep).0 e)) d)))
      | inr e ↦ e
    ];
    listed = λ dep d. known-keys dep ∙ w.listed name (sym (known-keys name) ∙ m) dep d;
    new = λ dep d. refl;
    distinct = w.distinct name (sym (known-keys name) ∙ m);
  }

  pub IsWellFormed-accepted : IsWellFormed deps → validate_graph deps ≡ ok tt
  unfolding validate_graph
  IsWellFormed-accepted w =
      let passes = IsWellFormed-Passes w in
      rw (check_names-of_Passes deps (sorted_keys deps) (sorted_keys deps) passes)
        (Outcome-acyclic Finished searched (search-Outcome (IsClosed-of_Passes passes)) w.acyclic)

  -- `ValidateGraph` accepts exactly the graphs in which every dependency is a process, none is named
  -- twice by the same process, and no process depends on itself, directly or through others.
  pub validate_graph_iff : (validate_graph deps ≡ ok tt) ↔ IsWellFormed deps
  validate_graph_iff = (accepted-IsWellFormed, IsWellFormed-accepted)

  Faults-Explains :
      (name : Text) (e : GraphError)
      → Faults (sorted_keys deps) name [] (deps_of deps name) e
      → Explains deps e
  unfolding member
  Faults-Explains name (depends_on_itself n) (at, self) =
      subst (λ x. member x (deps_of deps x) ≡ true) (sym at) self
  Faults-Explains name (unknown_process n dep) (at, m, absent) =
      (subst (λ x. member dep (deps_of deps x) ≡ true) (sym at) m, sym (known-keys dep) ∙ absent)
  Faults-Explains name (depends_twice n dep) (at, m, clash) = (
    subst (λ x. member dep (deps_of deps x) ≡ true) (sym at) m,
    λ distinct. clash (λ d h. refl) (subst (λ x. NoRepeats (deps_of deps x)) at distinct),
  )
  Faults-Explains name (cycle_detected c) f = absurd f
  Faults-Explains name unresolved f = absurd f
  Faults-Explains name no_fuel f = absurd f

  -- An error of `ValidateGraph` is true of the graph: the dependency that it names is the process
  -- itself, or no process, or named twice, or the processes that it lists form a cycle of
  -- dependencies. The search never runs out of fuel.
  pub validate_graph-Explains : (e : GraphError) → validate_graph deps ≡ err e → Explains deps e
  unfolding validate_graph
  validate_graph-Explains e h = by_checks checks refl
    where
      by_checks : (r : Result GraphError (Unit {0})) → checks ≡ r → Explains deps e
      by_checks (ok _) c =
          Outcome-err Finished searched e
            (search-Outcome
              (IsClosed-of_Passes (check_names-eq-ok deps (sorted_keys deps) (sorted_keys deps) c)))
            (ground arith)
      by_checks (err e') c =
          let (name, m, faults) =
            check_names-Faults deps (sorted_keys deps) (sorted_keys deps) e (ground arith) in
          Faults-Explains name e faults
