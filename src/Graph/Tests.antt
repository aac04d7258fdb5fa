-- ===== src/Graph/Tests.antt =====
-- Runs of the graph's functions, and of the theorems about them.
use process_deck.Base.{◌≡◌, refl, ◌↔◌, List, [], ◌∷◌, true, length}
use process_deck.Base.Result.{ok, err}
use process_deck.Base.Text.{Text, codes, member, AllIn}
use process_deck.Graph.{
  Deps, keys, cycle_detected, validate_graph, startup_layers, reverse_dependency_order,
}
use process_deck.Graph.Checks.{Explains}
use process_deck.Graph.Valid.{IsWellFormed, validate_graph_iff, validate_graph-Explains}
use process_deck.Graph.Layers.{IsLayering, startup_layers-IsLayering}
use process_deck.Graph.Order.{DependentsFirst, reverse_dependency_order-DependentsFirst}

-- Two clients of one service, which needs a database.
abbrev shop : Deps
shop =
    (codes "web", codes "api" ∷ [])
    ∷ (codes "db", [])
    ∷ (codes "api", codes "db" ∷ [])
    ∷ (codes "jobs", codes "db" ∷ codes "api" ∷ [])
    ∷ []

abbrev circle : Deps
circle = (codes "a", codes "b" ∷ []) ∷ (codes "b", codes "a" ∷ []) ∷ []

accepted_run : validate_graph shop ≡ ok tt
unfolding validate_graph
accepted_run = refl

circle_run : validate_graph circle ≡ err (cycle_detected (codes "a" ∷ codes "b" ∷ codes "a" ∷ []))
unfolding validate_graph
circle_run = refl

layers_run :
    startup_layers shop
    ≡ ok ((codes "db" ∷ []) ∷ (codes "api" ∷ []) ∷ (codes "jobs" ∷ codes "web" ∷ []) ∷ [])
unfolding startup_layers validate_graph
layers_run = refl

validate_graph_iff_example : (validate_graph shop ≡ ok tt) ↔ IsWellFormed shop
validate_graph_iff_example = validate_graph_iff shop

validate_graph-Explains_example :
    Explains circle (cycle_detected (codes "a" ∷ codes "b" ∷ codes "a" ∷ []))
validate_graph-Explains_example =
    validate_graph-Explains circle (cycle_detected (codes "a" ∷ codes "b" ∷ codes "a" ∷ []))
      circle_run

startup_layers-IsLayering_example :
    (layers : List (List Text)) × (startup_layers shop ≡ ok layers) × IsLayering shop layers
startup_layers-IsLayering_example = startup_layers-IsLayering shop accepted_run

reverse_dependency_order-DependentsFirst_example :
    (order : List Text) × (reverse_dependency_order shop ≡ ok order)
    × DependentsFirst shop order
    × AllIn (λ n. member n order ≡ true) (keys shop)
    × (length order ≡ length shop)
reverse_dependency_order-DependentsFirst_example =
    reverse_dependency_order-DependentsFirst shop accepted_run
