-- ===== src/Graph/Dependents.antt =====
-- `DependentsOf` of internal/supervisor/graph.go against the map of dependencies.
use process_deck.Base.{◌≡◌, refl, sym, ◌∙◌, true, false, [], ◌∷◌, arith}
use process_deck.Base.Text.{Text, same_iff, same_sym, member, member-sort}
use process_deck.Graph.{Deps, deps_of, keys, dependents_in, dependents_of}
use process_deck.Graph.Checks.{NoRepeats}

dependents_in-key :
    (deps : Deps) (name x : Text)
    → member x (dependents_in deps name) ≡ true
    → member x (keys deps) ≡ true
unfolding dependents_in keys member
dependents_in-key [] name x h = h
dependents_in-key ((key, values) ∷ rest) name x h = ground (arith, dependents_in-key rest name x)

deps_of-absent : (deps : Deps) (x : Text) → member x (keys deps) ≡ false → deps_of deps x ≡ []
unfolding keys member deps_of
deps_of-absent [] x h = refl
deps_of-absent ((key, values) ∷ rest) x h = ground (arith, same_sym key x, deps_of-absent rest x)

member-dependents_in :
    (deps : Deps) (name x : Text)
    → NoRepeats (keys deps)
    → member x (dependents_in deps name) ≡ member name (deps_of deps x)
unfolding dependents_in keys member deps_of
member-dependents_in [] name x once = refl
member-dependents_in ((key, values) ∷ rest) name x once = ground (
  arith,
  same_sym key x,
  same_iff key x,
  dependents_in-key rest name x,
  member-dependents_in rest name x once.1,
)

pub dependents_of-key :
    (deps : Deps) (name x : Text)
    → member x (dependents_of deps name) ≡ true
    → member x (keys deps) ≡ true
unfolding dependents_of
dependents_of-key deps name x h =
    dependents_in-key deps name x (sym (member-sort x (dependents_in deps name)) ∙ h)

-- In a map, which has each key once, a process is a dependent of another exactly when it names it.
pub member-dependents_of :
    (deps : Deps) (name x : Text)
    → NoRepeats (keys deps)
    → member x (dependents_of deps name) ≡ member name (deps_of deps x)
unfolding dependents_of
member-dependents_of deps name x once =
    member-sort x (dependents_in deps name) ∙ member-dependents_in deps name x once
