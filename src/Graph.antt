-- ===== src/Graph.antt =====
-- internal/supervisor/graph.go: the dependency graph of the processes, its validation, its startup
-- layers and the order of shutdown. A map is an association list; the source sorts its keys
-- wherever their order can be seen.
pub mod Paths
pub mod Marking
pub mod Visit
pub mod Checks
pub mod Acyclic
pub mod Valid
pub mod Layers
pub mod Order
pub mod Dependents
mod Tests
use process_deck.Base.{
  ℕ, zero, suc, ◌+◌, ◌==◌, ltb, if◌then◌else◌, Bool, true, false, not, ◌&&◌, ◌||◌, List, [], ◌∷◌,
  ◌++◌, map, reverse, Option, none, some, length,
}
use process_deck.Base.Result.{Result, ok, err, ◌>>=◌, ◌>>◌}
use process_deck.Base.Text.{Text, codes, same, sort, member}

abbrev pub Deps : Type 0
Deps = List (Text × List Text)

-- `deps[name]`, which is empty for a name that the map lacks.
unfoldable pub deps_of : Deps → Text → List Text
unfolding same
deps_of [] name = []
deps_of ((key, values) ∷ rest) name = if same key name then values else deps_of rest name

unfoldable pub keys : Deps → List Text
keys [] = []
keys ((key, values) ∷ rest) = key ∷ keys rest

unfoldable pub sorted_keys : Deps → List Text
unfolding sort keys
sorted_keys deps = sort (keys deps)

pub data GraphError : Type 0 where
  depends_on_itself : Text → GraphError
  unknown_process depends_twice : Text → Text → GraphError
  cycle_detected : List Text → GraphError
  unresolved : GraphError
  -- The fuel of the model ran out. It never does.
  no_fuel : GraphError

-- The loop over the dependencies of one process, with `seenDeps`.
pub check_deps :
    (known : List Text) (name : Text) (seen deps : List Text) → Result GraphError (Unit {0})
unfolding same member
check_deps known name seen [] = ok tt
check_deps known name seen (dep ∷ deps) =
    let rest = check_deps known name (dep ∷ seen) deps in
    if same name dep
    then err (depends_on_itself name)
    else if not (member dep known)
    then err (unknown_process name dep)
    else if member dep seen
    then err (depends_twice name dep)
    else rest

pub check_names : Deps → (known names : List Text) → Result GraphError (Unit {0})
unfolding check_deps deps_of
check_names deps known [] = ok tt
check_names deps known (name ∷ names) =
    check_deps known name [] (deps_of deps name) >>= λ _. check_names deps known names

-- The values 0, 1 and 2 of `state`.
pub data Mark : Type 0 where
  unseen active finished : Mark

-- A write to `state` stands in front of the older ones.
abbrev pub Marks : Type 0
Marks = List (Text × Mark)

unfoldable pub mark_of : Marks → Text → Mark
unfolding same
mark_of [] name = unseen
mark_of ((key, mark) ∷ rest) name = if same key name then mark else mark_of rest name

-- From the first place of `dep` on the stack, closed by `dep` once more.
pub cycle_from : Text → List Text → Option (List Text)
unfolding same
cycle_from dep [] = none
cycle_from dep (candidate ∷ stack) =
    if same candidate dep then some ((candidate ∷ stack) ++ (dep ∷ [])) else cycle_from dep stack

-- The cycle found (empty for none) and the marks; nothing if the fuel ran out.
abbrev Visited : Type 0
Visited = Option (List Text × Marks)

-- What follows a call of `visitGraph`: an error on a cycle, and `next` without one.
abbrev unless_cycle : Visited → (Marks → Visited) → Visited
unless_cycle none next = none
unless_cycle (some ([], marks)) next = next marks
unless_cycle (some (name ∷ names, marks)) next = some (name ∷ names, marks)

visit_deps : (visit : Text → Marks → List Text → Visited) (stack deps : List Text) → Marks → Visited
unfolding mark_of cycle_from
visit_deps visit stack [] marks = some ([], marks)
visit_deps visit stack (dep ∷ deps) marks =
    let next = visit_deps visit stack deps in
    elim (mark_of marks dep) [
      | unseen ↦ unless_cycle (visit dep marks stack) next
      | active ↦ elim (cycle_from dep stack) [
        | none ↦ next marks
        | some cycle ↦ some (cycle, marks)
      ]
      | finished ↦ next marks
    ]

visit_graph : ℕ → Deps → Text → Marks → List Text → Visited
unfolding visit_deps sort deps_of
visit_graph zero deps name marks stack = none
visit_graph (suc fuel) deps name marks stack =
    unless_cycle
      (visit_deps (visit_graph fuel deps) (stack ++ (name ∷ [])) (sort (deps_of deps name))
        ((name, active) ∷ marks))
      (λ marks'. some ([], (name, finished) ∷ marks'))

pub visit_all : ℕ → Deps → List Text → Marks → Visited
unfolding visit_graph
visit_all fuel deps [] marks = some ([], marks)
visit_all fuel deps (name ∷ names) marks =
    let next = visit_all fuel deps names in
    elim (mark_of marks name) [
      | unseen ↦ unless_cycle (visit_graph fuel deps name marks []) next
      | _ ↦ next marks
    ]

pub cycle_error : Visited → Result GraphError (Unit {0})
cycle_error none = err no_fuel
cycle_error (some ([], marks)) = ok tt
cycle_error (some (name ∷ names, marks)) = err (cycle_detected (name ∷ names))

-- Every call marks one more process, so the number of processes bounds how deep the calls go.
unfoldable pub validate_graph : Deps → Result GraphError (Unit {0})
unfolding check_names visit_all cycle_error sorted_keys
validate_graph deps =
    check_names deps (sorted_keys deps) (sorted_keys deps)
    >> cycle_error (visit_all (suc (length deps)) deps (sorted_keys deps) [])

-- `dependenciesDone`
unfoldable pub dependencies_done : (deps done : List Text) → Bool
unfolding member
dependencies_done [] done = true
dependencies_done (dep ∷ deps) done = member dep done && dependencies_done deps done

pub next_layer : Deps → (done names : List Text) → List Text
unfolding dependencies_done deps_of
next_layer deps done [] = []
next_layer deps done (name ∷ names) =
    if not (member name done) && dependencies_done (deps_of deps name) done
    then name ∷ next_layer deps done names
    else next_layer deps done names

-- The loop of `StartupLayers`, on fuel. `done` holds each name once.
layers_from : ℕ → Deps → (done : List Text) → Result GraphError (List (List Text))
unfolding next_layer sorted_keys
layers_from zero deps done = err no_fuel
layers_from (suc fuel) deps done =
    let layer = next_layer deps done (sorted_keys deps) in
    let rest = layers_from fuel deps (done ++ layer) in
    if not (ltb (length done) (length deps))
    then ok []
    else if length layer == 0
    then err unresolved
    else (rest >>= λ layers. ok (layer ∷ layers))

unfoldable pub startup_layers : Deps → Result GraphError (List (List Text))
unfolding validate_graph layers_from
startup_layers deps = validate_graph deps >> layers_from (suc (length deps)) deps []

abbrev pub flatten : List (List Text) → List Text
flatten [] = []
flatten (xs ∷ xss) = xs ++ flatten xss

-- Both loops run from the end, so the order is that of the layers, reversed.
unfoldable pub reverse_dependency_order : Deps → Result GraphError (List Text)
unfolding startup_layers
reverse_dependency_order deps =
    startup_layers deps >>= λ layers. ok (flatten (map reverse (reverse layers)))

dependents_in : Deps → Text → List Text
unfolding member
dependents_in [] name = []
dependents_in ((process, deps) ∷ rest) name =
    if member name deps then process ∷ dependents_in rest name else dependents_in rest name

unfoldable pub dependents_of : Deps → Text → List Text
unfolding dependents_in sort
dependents_of deps name = sort (dependents_in deps name)

unfoldable pub dependencies_of : Deps → Text → List Text
unfolding deps_of sort
dependencies_of deps name = sort (deps_of deps name)

-- `joinCycle`
unfoldable pub join_cycle : List Text → Text
join_cycle [] = []
join_cycle (name ∷ []) = name
join_cycle (name ∷ next ∷ names) = name ++ codes " -> " ++ join_cycle (next ∷ names)
