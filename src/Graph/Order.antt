-- ===== src/Graph/Order.antt =====
-- `ReverseDependencyOrder`: the order in which processes are stopped.
use process_deck.Base.{
  ◌≡◌, refl, sym, ap, subst, ◌∙◌, true, List, [], ◌∷◌, ◌++◌, append_assoc, append-nil, map, reverse,
  length, length-append, arith,
}
use mathlib.Core.List.{reverse-append, reverse-cons, map-append}
use process_deck.Base.Result.{ok}
use process_deck.Base.Text.{Text, same_self, member, member-append, AllIn}
use process_deck.Graph.{Deps, deps_of, keys, validate_graph, reverse_dependency_order, flatten}
use process_deck.Graph.Layers.{Staged, startup_layers-IsLayering}

flatten-append : (xss yss : List (List Text)) → flatten (xss ++ yss) ≡ flatten xss ++ flatten yss
flatten-append [] yss = refl
flatten-append (xs ∷ xss) yss =
    ap (λ l. xs ++ l) (flatten-append xss yss) ∙ sym (append_assoc xs (flatten xss) (flatten yss))

-- Running through the layers and each layer from the end reverses the whole.
flatten-reverse :
    (layers : List (List Text)) → flatten (map reverse (reverse layers)) ≡ reverse (flatten layers)
flatten-reverse [] = refl
flatten-reverse (layer ∷ layers) =
    ap (λ l. flatten (map reverse l)) (reverse-cons layer layers)
    ∙ ap flatten (map-append reverse (reverse layers) (layer ∷ []))
    ∙ flatten-append (map reverse (reverse layers)) (reverse layer ∷ [])
    ∙ ap (λ l. l ++ (reverse layer ++ [])) (flatten-reverse layers)
    ∙ ap (λ l. reverse (flatten layers) ++ l) (append-nil (reverse layer))
    ∙ sym (reverse-append layer (flatten layers))

-- Whatever a process depends on stands behind it.
abbrev pub DependentsFirst : Deps → List Text → Type 0
DependentsFirst deps [] = Unit
DependentsFirst deps (name ∷ names) =
    AllIn (λ d. member d names ≡ true) (deps_of deps name) × DependentsFirst deps names

member-reverse : (a : Text) (xs ys : List Text) → member a (reverse xs ++ ys) ≡ member a (xs ++ ys)
unfolding member
member-reverse a [] ys = refl
member-reverse a (x ∷ xs) ys =
    ap (λ l. member a (l ++ ys)) (reverse-cons x xs)
    ∙ ap (member a) (append_assoc (reverse xs) (x ∷ []) ys)
    ∙ member-reverse a xs (x ∷ ys)
    ∙ ground (arith, member-append a xs (x ∷ ys), member-append a xs ys)

length-reverse : (xs : List Text) → length (reverse xs) ≡ length xs
length-reverse [] = refl
length-reverse (x ∷ xs) =
    ap length (reverse-cons x xs)
    ∙ omega (arith, length-append (reverse xs) (x ∷ []), length-reverse xs)

module _ (deps : Deps) where
  -- A layer goes in front of what was done before it.
  layer-DependentsFirst :
      (layer done behind : List Text)
      → ((n : Text) → member n done ≡ true → member n behind ≡ true)
      → AllIn (λ n. AllIn (λ d. member d done ≡ true) (deps_of deps n)) layer
      → DependentsFirst deps behind
      → DependentsFirst deps (reverse layer ++ behind)
  unfolding member
  layer-DependentsFirst [] done behind sub all first = first
  layer-DependentsFirst (n ∷ layer) done behind sub all first =
      subst (DependentsFirst deps)
        (sym (
          ap (λ l. l ++ behind) (reverse-cons n layer)
          ∙ append_assoc (reverse layer) (n ∷ []) behind))
        (layer-DependentsFirst layer done (n ∷ behind) (λ m h. ground (arith, sub m h))
          (λ m h. all m (ground arith))
          ((λ d m. sub d (all n (ground (arith, same_self n)) d m)), first))

  layers-DependentsFirst :
      (layers : List (List Text)) (done behind : List Text)
      → ((n : Text) → member n behind ≡ member n done)
      → Staged deps done layers
      → DependentsFirst deps behind
      → DependentsFirst deps (reverse (flatten layers) ++ behind)
  layers-DependentsFirst [] done behind sub staged first = first
  layers-DependentsFirst (layer ∷ layers) done behind sub staged first =
      subst (DependentsFirst deps)
        (sym (
          ap (λ l. l ++ behind) (reverse-append layer (flatten layers))
          ∙ append_assoc (reverse (flatten layers)) (reverse layer) behind))
        (layers-DependentsFirst layers (done ++ layer) (reverse layer ++ behind)
          (λ n. ground (
            arith,
            member-reverse n layer behind,
            member-append n layer behind,
            member-append n done layer,
            sub n,
          ))
          staged.2
          (layer-DependentsFirst layer done behind (λ n h. sub n ∙ h) (λ n m. (staged.1 n m).2)
            first))

  -- The order in which all processes are stopped: of a graph that `ValidateGraph` accepts it exists,
  -- has every process, has as many places as there are processes, and puts each process before all
  -- that it depends on.
  pub reverse_dependency_order-DependentsFirst :
      validate_graph deps ≡ ok tt
      → (order : List Text) × (reverse_dependency_order deps ≡ ok order)
        × DependentsFirst deps order
        × AllIn (λ n. member n order ≡ true) (keys deps)
        × (length order ≡ length deps)
  unfolding reverse_dependency_order member
  reverse_dependency_order-DependentsFirst accepted =
      let (layers, ran, lay) = startup_layers-IsLayering deps accepted in
      let turned = flatten-reverse layers in
      let whole = append-nil (reverse (flatten layers)) in
      (
        reverse (flatten layers),
        rw (ran, turned),
        subst (DependentsFirst deps) whole
            (layers-DependentsFirst layers [] [] (λ n. refl) lay.staged tt),
        (λ n m.
            subst (λ l. member n l ≡ true) whole
              (member-reverse n (flatten layers) [] ∙ rw append-nil (lay.complete n m))),
        length-reverse (flatten layers) ∙ lay.once,
      )
