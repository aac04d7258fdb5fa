-- ===== src/Graph/Layers.antt =====
-- `StartupLayers`: an accepted graph is layered to the end, and how its layers stand to one another.
mod Rounds
use process_deck.Base.{
  ℕ, zero, suc, ◌+◌, ◌<◌, ◌≡◌, ◌≢◌, refl, sym, ap, subst, ◌∙◌, inl, inr, Bool, true, false, not,
  ◌&&◌, List, [], ◌∷◌, ◌++◌, append_assoc, append-nil, length, length-append, Bool-cases,
  if◌then◌else◌, ltb, ◌==◌, arith,
}
use process_deck.Base.Result.{ok}
use process_deck.Base.Text.{Text, same, same_iff, same_self, member, member-append, AllIn}
use process_deck.Graph.{
  Deps, deps_of, keys, sorted_keys, unseen, active, finished, Marks, mark_of, validate_graph,
  dependencies_done, next_layer, layers_from, startup_layers, flatten,
}
use process_deck.Graph.Marking.{IsOrdered}
use process_deck.Graph.Visit.{IsClosed}
use process_deck.Graph.Valid.{finishing_order, length-sorted_keys, known-keys, sorted-IsClosed}
use process_deck.Graph.Layers.Rounds.{
  dependencies_done-mem, dependencies_done-of_AllIn, member_head, member_behind, ready,
  member-next_layer, left, left-append, left_none, left_nil, left_zero, next_layer_empty,
  finished_done,
}

-- Each layer has processes that are not done yet and whose dependencies are all done, `done` being
-- those that stand in the layers before.
abbrev pub Staged : Deps → List Text → List (List Text) → Type 0
Staged deps done [] = Unit
Staged deps done (layer ∷ layers) =
    (layer ≢ [])
    × AllIn
        (λ n.
          (member n (keys deps) ≡ true)
          × (member n done ≡ false)
          × AllIn (λ d. member d done ≡ true) (deps_of deps n))
        layer
    × Staged deps (done ++ layer) layers

-- The layers are what `StartupLayers` promises: staged from the beginning, with every process, and
-- with no more places than there are processes.
pub record IsLayering (deps : Deps) (layers : List (List Text)) : Type 0 where
  pub staged : Staged deps [] layers
  pub complete : AllIn (λ n. member n (flatten layers) ≡ true) (keys deps)
  pub once : length (flatten layers) ≡ length deps

module _ (deps : Deps) (closed : IsClosed deps (sorted_keys deps)) (marks : Marks)
    (ordered : IsOrdered deps marks)
    (all : AllIn (λ n. mark_of marks n ≡ finished) (sorted_keys deps)) where
  abbrev Layered : List Text → List (List Text) → Type 0
  Layered done layers =
      Staged deps done layers
      × AllIn (λ n. member n (done ++ flatten layers) ≡ true) (sorted_keys deps)
      × (length done + length (flatten layers) ≡ length deps)

  layer_staged :
      (done : List Text) (n : Text)
      → member n (next_layer deps done (sorted_keys deps)) ≡ true
      → (member n (keys deps) ≡ true)
        × (member n done ≡ false)
        × AllIn (λ d. member d done ≡ true) (deps_of deps n)
  layer_staged done n m =
      let here = member-next_layer deps done (sorted_keys deps) n in
      (
        ground (arith, here, known-keys deps n),
        ground (arith, here),
        λ d. dependencies_done-mem (deps_of deps n) done d (ground (arith, here)),
      )

  layers_from-Layered :
      (fuel : ℕ) (done : List Text)
      → length done + left deps done (sorted_keys deps) ≡ length deps
      → length deps < fuel + length done
      → (layers : List (List Text)) × (layers_from fuel deps done ≡ ok layers) × Layered done layers
  unfolding layers_from
  layers_from-Layered zero done count enough = absurd (omega arith)
  layers_from-Layered (suc fuel) done count enough =
      elim (Bool-cases (ltb (length done) (length deps))) [
        | inr over ↦ (
          [],
          rw over,
          (
            tt,
            (λ n m. rw append-nil (left_none deps done (sorted_keys deps) n (ground arith) m)),
            ground arith,
          ),
        )
        | inl more ↦ elim (Bool-cases (length (next_layer deps done (sorted_keys deps)) == 0)) [
          | inl idle ↦ absurd (ground (arith, stuck (ground arith)))
          | inr some_ready ↦
              let L = next_layer deps done (sorted_keys deps) in
              let size = length-append done L in
              let (rest, ran, lay) =
                layers_from-Layered fuel (done ++ L) (omega (arith, size, fewer, count))
                  (ground (arith, size)) in
              (
                L ∷ rest,
                rw (more, some_ready, ran),
                (
                  ((λ e. ground (arith, ap length e)), (λ n m. layer_staged done n m), lay.0),
                  (λ n m. rw (← append_assoc) (lay.1 n m)),
                  omega (arith, size, lay.2, length-append L (flatten rest)),
                ),
              )
        ]
      ]
    where
      stuck :
          length (next_layer deps done (sorted_keys deps)) ≡ 0
          → left deps done (sorted_keys deps) ≡ 0
      stuck idle = left_zero deps done (sorted_keys deps) (λ n m.
          finished_done deps done (sorted_keys deps)
            (λ n' m'. next_layer_empty deps done (sorted_keys deps) n' idle m') closed marks ordered
            n m (all n m))

      fewer :
          length (next_layer deps done (sorted_keys deps))
            + left deps (done ++ next_layer deps done (sorted_keys deps)) (sorted_keys deps)
          ≡ left deps done (sorted_keys deps)
      fewer =
          left-append deps done (next_layer deps done (sorted_keys deps)) (sorted_keys deps)
            (λ n m. ground (arith, member-next_layer deps done (sorted_keys deps) n))

module _ (deps : Deps) where
  -- A graph that `ValidateGraph` accepts is layered: the error "dependency graph could not be
  -- resolved" does not occur, nor does the loop run out of fuel. No layer is empty, every process
  -- stands in a layer, there are as many places as processes, and all dependencies of a process
  -- stand in layers before its own.
  pub startup_layers-IsLayering :
      validate_graph deps ≡ ok tt
      → (layers : List (List Text)) × (startup_layers deps ≡ ok layers) × IsLayering deps layers
  unfolding startup_layers
  startup_layers-IsLayering accepted =
      let (marks, ordered, all) = finishing_order deps accepted in
      let (layers, ran, lay) =
        layers_from-Layered deps (sorted-IsClosed deps accepted) marks ordered all
          (suc (length deps)) []
          (omega (arith, left_nil deps (sorted_keys deps), length-sorted_keys deps))
          (omega arith) in
      (
        layers,
        rw (accepted, ran),
        record {
          staged = lay.0;
          complete = λ n m. lay.1 n (known-keys deps n ∙ m);
          once = omega (arith, lay.2);
        },
      )
