-- ===== src/Supervisor/Commands/Select.antt =====
-- `stopOrder` of internal/supervisor/supervisor.go.
use process_deck.Base.{ℕ, zero, suc, not, List, [], ◌∷◌, Option, none, some, if◌then◌else◌, length}
use process_deck.Base.Result.{Result, ok, err}
use process_deck.Base.Text.{Text, member}
use process_deck.Graph.{Deps, no_fuel, keys, dependents_of, reverse_dependency_order}
use process_deck.Supervisor.{SupError, unknown_name, graph}

-- The set that `visit` of `stopOrder` collects, on fuel.
unfoldable pub select_all :
    (visit : List Text → Text → Option (List Text)) → List Text → List Text → Option (List Text)
select_all visit selected [] = some selected
select_all visit selected (name ∷ names) = elim (visit selected name) [
  | none ↦ none
  | some more ↦ select_all visit more names
]

unfoldable pub select : ℕ → Deps → List Text → Text → Option (List Text)
select zero deps selected name = none
select (suc fuel) deps selected name =
    let inner = select_all (select fuel deps) (name ∷ selected) (dependents_of deps name) in
    if member name selected then some selected else inner

unfoldable pub keep_selected : (selected order : List Text) → List Text
keep_selected selected [] = []
keep_selected selected (name ∷ order) =
    if member name selected
    then name ∷ keep_selected selected order
    else keep_selected selected order

-- `stopOrder`. Each call inside `visit` adds a process, so their number bounds its depth.
unfoldable pub stop_order : Deps → Text → Result SupError (List Text)
stop_order deps name =
    if not (member name (keys deps))
    then err (unknown_name name)
    else elim (select (suc (suc (length deps))) deps [] name) [
      | none ↦ err (graph no_fuel)
      | some selected ↦ elim (reverse_dependency_order deps) [
        | err e ↦ err (graph e)
        | ok order ↦ ok (keep_selected selected order)
      ]
    ]
