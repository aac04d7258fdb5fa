-- ===== src/Graph/Visit.antt =====
-- `visitGraph` with enough fuel: it returns, what it reports is a cycle, and where it reports none
-- everything that it was called for is finished.
use process_deck.Base.{
  ℕ, zero, suc, ◌≤◌, ◌≡◌, refl, sym, ◌∙◌, true, List, [], ◌∷◌, ◌++◌, none, some, arith,
}
use process_deck.Base.Text.{Text, same_iff, same_self, sort, member, member-sort, AllIn}
use process_deck.Graph.{
  Deps, deps_of, Mark, unseen, active, finished, Marks, mark_of, Visited, unless_cycle, visit_deps,
  visit_graph, visit_all,
}
use process_deck.Graph.Paths.{
  IsPath, LinksTo, IsCycle, IsPath-snoc, LinksTo-snoc, cycle_from-IsCycle,
}
use process_deck.Graph.Marking.{
  IsOrdered, Keeps, Keeps-refl, Keeps-trans, Stacked, Stacked-Keeps, unreached, unreached-Keeps,
  unreached-cons_lt, mark_of-cons, Stacked-active, Keeps-finished,
}

mark_of-singleton :
    (name other : Text) (mark : Mark) (marks : Marks)
    → member other (name ∷ []) ≡ true
    → mark_of ((name, mark) ∷ marks) other ≡ mark
unfolding member
mark_of-singleton name other mark marks h =
    ground (arith, mark_of-cons name other mark marks, same_iff name other, same_iff other name)

-- Every dependency is itself a key of the map.
abbrev pub IsClosed : Deps → List Text → Type 0
IsClosed deps known =
    (name : Text)
    → member name known ≡ true
    → AllIn (λ dep. member dep known ≡ true) (deps_of deps name)

module _ (deps : Deps) where
  -- Without a cycle the marks have the property; the fuel does not run out.
  abbrev pub Outcome : (Marks → Type 0) → Visited → Type 0
  Outcome P none = ⊥
  Outcome P (some ([], marks)) = P marks
  Outcome P (some (name ∷ names, marks)) = IsCycle deps (name ∷ names)

  unless_cycle-Outcome :
      (P Q : Marks → Type 0) (v : Visited) (next : Marks → Visited)
      → Outcome P v
      → ((marks : Marks) → P marks → Outcome Q (next marks))
      → Outcome Q (unless_cycle v next)
  unless_cycle-Outcome P Q none next o k = o
  unless_cycle-Outcome P Q (some ([], marks)) next o k = k marks o
  unless_cycle-Outcome P Q (some (name ∷ names, marks)) next o k = o

  Outcome-map :
      (P Q : Marks → Type 0) (v : Visited)
      → ((marks : Marks) → P marks → Q marks)
      → Outcome P v
      → Outcome Q v
  Outcome-map P Q none f o = o
  Outcome-map P Q (some ([], marks)) f o = f marks o
  Outcome-map P Q (some (name ∷ names, marks)) f o = o

  -- What holds when the dependencies of a process have been visited.
  abbrev pub Done : Marks → List Text → Marks → Type 0
  Done before names after =
      IsOrdered deps after × Keeps before after × AllIn (λ n. mark_of after n ≡ finished) names

  Done-cons :
      (before between after : Marks) (name : Text) (names : List Text)
      → Keeps before between
      → mark_of between name ≡ finished
      → Done between names after
      → Done before (name ∷ names) after
  unfolding member
  Done-cons before between after name names k f (ordered, k', all) = (
    ordered,
    Keeps-trans before between after k k',
    λ other m. ground (arith, same_iff other name, all other, (k' name).0 f),
  )

  module _ (known : List Text) (fuel : ℕ) (visit : Text → Marks → List Text → Visited) where
    -- What a call of `visitGraph` is to achieve when at most `fuel` processes are unreached.
    abbrev Visits : Type 0
    Visits =
        (name : Text) (marks : Marks) (stack : List Text)
        → member name known ≡ true
        → mark_of marks name ≡ unseen
        → IsOrdered deps marks
        → Stacked marks stack
        → IsPath deps (stack ++ (name ∷ []))
        → unreached marks known ≤ fuel
        → Outcome (λ after. Done marks (name ∷ []) after) (visit name marks stack)

    module _ (visits : Visits) (stack : List Text) (path : IsPath deps stack) where
      visit_deps-Outcome :
          (names : List Text) (marks : Marks)
          → AllIn (λ n. (member n known ≡ true) × LinksTo deps stack n) names
          → IsOrdered deps marks
          → Stacked marks stack
          → unreached marks known ≤ fuel
          → Outcome (λ after. Done marks names after) (visit_deps visit stack names marks)
      unfolding visit_deps member
      visit_deps-Outcome [] marks all ordered stacked enough =
          (ordered, Keeps-refl marks, λ n h. cc)
      visit_deps-Outcome (name ∷ names) marks all ordered stacked enough =
          by_mark (λ m. visit_deps-Outcome names m rest) (mark_of marks name) refl
        where
          here : (member name known ≡ true) × LinksTo deps stack name
          here = all name (ground (arith, same_self name))

          rest : AllIn (λ n. (member n known ≡ true) × LinksTo deps stack n) names
          rest n h = all n (ground arith)

          after_one :
              (between : Marks)
              → Done marks (name ∷ []) between
              → Outcome (λ after. Done between names after) (visit_deps visit stack names between)
              → Outcome
                  (λ after. Done marks (name ∷ names) after)
                  (visit_deps visit stack names between)
          after_one between (_, k, f) o =
              Outcome-map (λ after. Done between names after)
                (λ after. Done marks (name ∷ names) after) (visit_deps visit stack names between)
                (λ after d.
                  Done-cons marks between after name names k
                    (f name (ground (arith, same_self name))) d)
                o

          by_mark :
              ((between : Marks)
                → IsOrdered deps between
                → Stacked between stack
                → unreached between known ≤ fuel
                → Outcome
                    (λ after. Done between names after)
                    (visit_deps visit stack names between))
              → (mark : Mark) → mark_of marks name ≡ mark
              → Outcome
                  (λ after. Done marks (name ∷ names) after)
                  (visit_deps visit stack (name ∷ names) marks)
          by_mark next unseen e =
              rw (e, visit_deps)
                (unless_cycle-Outcome (λ m. Done marks (name ∷ []) m)
                  (λ m. Done marks (name ∷ names) m) (visit name marks stack)
                  (visit_deps visit stack names)
                  (visits name marks stack here.0 e ordered stacked
                    (IsPath-snoc deps stack name path here.1) enough)
                  (λ m d. after_one m d (
                    next m d.0 (Stacked-Keeps marks m stack stacked d.1)
                      (omega (arith, unreached-Keeps marks m known d.1, enough)))))
          by_mark next active e =
              let (x, xs, found, cycle) =
                cycle_from-IsCycle deps name stack path here.1 (stacked name e) in
              rw (e, found, visit_deps) cycle
          by_mark next finished e =
              rw (e, visit_deps)
                (after_one marks (ordered, Keeps-refl marks, λ n h. ground (arith, same_iff n name))
                  (next marks ordered stacked enough))

  -- The fuel bounds the processes that are unreached.
  visit_graph-Outcome :
      (known : List Text) (closed : IsClosed deps known) (fuel : ℕ)
      → Visits known fuel (visit_graph (suc fuel) deps)
  unfolding visit_graph
  visit_graph-Outcome known closed zero name marks stack m u ordered stacked path enough =
      absurd (omega (arith, unreached-cons_lt name marks known m u))
  visit_graph-Outcome known closed (suc fuel) name marks stack m u ordered stacked path enough =
      unless_cycle-Outcome (λ after. Done ((name, active) ∷ marks) (sort (deps_of deps name)) after)
        (λ after. Done marks (name ∷ []) after)
        (visit_deps (visit_graph (suc fuel) deps) (stack ++ (name ∷ [])) (sort (deps_of deps name))
          ((name, active) ∷ marks))
        (λ marks'. some ([], (name, finished) ∷ marks'))
        (visit_deps-Outcome known fuel (visit_graph (suc fuel) deps)
          (visit_graph-Outcome known closed fuel) (stack ++ (name ∷ [])) path
          (sort (deps_of deps name)) ((name, active) ∷ marks)
          (λ dep h.
            let listed = sym (member-sort dep (deps_of deps name)) ∙ h in
            (closed name m dep listed, LinksTo-snoc deps stack name dep listed))
          ordered (Stacked-active name marks stack stacked)
          (omega (arith, unreached-cons_lt name marks known m u, enough)))
        (λ after (o, k, all). (
          ((λ dep h. all dep (member-sort dep (deps_of deps name) ∙ h)), o),
          Keeps-finished name marks after u k,
          λ other h. mark_of-singleton name other finished after h,
        ))

  -- The loop of `ValidateGraph` over all names.
  pub visit_all-Outcome :
      (known : List Text) (closed : IsClosed deps known) (fuel : ℕ) (names : List Text)
      (marks : Marks)
      → AllIn (λ n. member n known ≡ true) names
      → IsOrdered deps marks
      → Stacked marks []
      → unreached marks known ≤ fuel
      → Outcome (λ after. Done marks names after) (visit_all (suc fuel) deps names marks)
  unfolding visit_all member
  visit_all-Outcome known closed fuel [] marks all ordered stacked enough =
      (ordered, Keeps-refl marks, λ n h. cc)
  visit_all-Outcome known closed fuel (name ∷ names) marks all ordered stacked enough =
      by_mark (λ m. visit_all-Outcome known closed fuel names m (λ n h. all n (ground arith)))
        (mark_of marks name) refl
    where
      by_mark :
          ((between : Marks)
            → IsOrdered deps between
            → Stacked between []
            → unreached between known ≤ fuel
            → Outcome (λ after. Done between names after) (visit_all (suc fuel) deps names between))
          → (mark : Mark) → mark_of marks name ≡ mark
          → Outcome
              (λ after. Done marks (name ∷ names) after)
              (visit_all (suc fuel) deps (name ∷ names) marks)
      by_mark next unseen e =
          rw (e, visit_all)
            (unless_cycle-Outcome (λ m. Done marks (name ∷ []) m) (λ m. Done marks (name ∷ names) m)
              (visit_graph (suc fuel) deps name marks []) (visit_all (suc fuel) deps names)
              (visit_graph-Outcome known closed fuel name marks []
                (all name (ground (arith, same_self name))) e ordered stacked tt enough)
              (λ m (o, k, f).
                Outcome-map (λ after. Done m names after) (λ after. Done marks (name ∷ names) after)
                  (visit_all (suc fuel) deps names m)
                  (λ after d.
                    Done-cons marks m after name names k (f name (ground (arith, same_self name)))
                      d)
                  (next m o (Stacked-Keeps marks m [] stacked k)
                    (omega (arith, unreached-Keeps marks m known k, enough)))))
      by_mark next active e = absurd (ground (arith, stacked name e))
      by_mark next finished e =
          rw (e, visit_all)
            (Outcome-map (λ after. Done marks names after)
              (λ after. Done marks (name ∷ names) after) (visit_all (suc fuel) deps names marks)
              (λ after d. Done-cons marks marks after name names (Keeps-refl marks) e d)
              (next marks ordered stacked enough))
