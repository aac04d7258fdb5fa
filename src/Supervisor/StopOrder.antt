-- ===== src/Supervisor/StopOrder.antt =====
-- What `stopOrder` of internal/supervisor/supervisor.go selects: a process and all that depend on it.
mod Selected
use process_deck.Base.{
  ℕ, zero, suc, ◌≤◌, ◌<◌, ◌≡◌, refl, sym, ap, subst, ◌∙◌, ◌⊎◌, ◌↔◌, inl, inr, true, false, ◌&&◌,
  Bool-cases, List, [], ◌∷◌, Option, some, if◌then◌else◌, length, arith,
}
use process_deck.Base.Result.{ok}
use process_deck.Base.Text.{Text, same, same_iff, same_self, member}
use process_deck.Graph.{Deps, deps_of, keys, dependents_of, validate_graph}
use process_deck.Graph.Dependents.{dependents_of-key, member-dependents_of}
use process_deck.Graph.Checks.{NoRepeats}
use process_deck.Graph.Acyclic.{Follows, step, later}
use process_deck.Graph.Valid.{length-keys}
use process_deck.Graph.Order.{reverse_dependency_order-DependentsFirst}
use process_deck.Supervisor.Commands.{select_all, select, keep_selected, stop_order}
use process_deck.Supervisor.StopOrder.Selected.{
  unselected, Within, unselected-Within, unselected-cons, member-cases, Reaches, Reaches-before,
  IsSelection, IsSelection-trans, Visits, select_all-Visits, dependents-Within, select-Visits,
  Reaches-selected, Reaches-key, itself, dependent,
}

module _ (deps : Deps) (once : NoRepeats (keys deps)) where
  Reaches-Follows : {name x : Text} → Reaches deps name x → (x ≡ name) ⊎ Follows deps x name
  Reaches-Follows itself = inl refl
  Reaches-Follows {name} (dependent {x = x} {y = y} r k) =
      let link = sym (member-dependents_of deps x y once) ∙ k in
      elim (Reaches-Follows r) [
        | inl e ↦ inr (step (subst (λ z. member z (deps_of deps y) ≡ true) e link))
        | inr f ↦ inr (later link f)
      ]

  Follows-Reaches : {x name : Text} → Follows deps x name → Reaches deps name x
  Follows-Reaches {x} {name} (step h) = dependent itself (member-dependents_of deps name x once ∙ h)
  Follows-Reaches {x} (later {b = b} h f) =
      dependent (Follows-Reaches f) (member-dependents_of deps b x once ∙ h)

  linked-Reaches : {x name : Text} → (x ≡ name) ⊎ Follows deps x name → Reaches deps name x
  linked-Reaches {x} {name} (inl e) = subst (Reaches deps name) (sym e) itself
  linked-Reaches (inr f) = Follows-Reaches f

member-keep_selected :
    (selected order : List Text) (x : Text)
    → member x (keep_selected selected order) ≡ (member x order && member x selected)
unfolding keep_selected member
member-keep_selected selected [] x = refl
member-keep_selected selected (n ∷ order) x =
    ground (arith, same_iff x n, member-keep_selected selected order x)

unselected_nil : (names : List Text) → unselected [] names ≡ length names
unfolding member
unselected_nil [] = refl
unselected_nil (n ∷ names) = ap suc (unselected_nil names)

-- Of a map that `ValidateGraph` accepts, and a process of it, `stopOrder` has a result, and selects that
-- process and those that depend on it, directly or through others, and no other.
pub stop_order_iff :
    (deps : Deps) (name : Text)
    → validate_graph deps ≡ ok tt
    → NoRepeats (keys deps)
    → member name (keys deps) ≡ true
    → (order : List Text) × (stop_order deps name ≡ ok order)
      × ((x : Text) → (member x order ≡ true) ↔ ((x ≡ name) ⊎ Follows deps x name))
unfolding stop_order Visits member
stop_order_iff deps name accepted once known =
    let (order, ordered, first, all, size) =
      reverse_dependency_order-DependentsFirst deps accepted in
    let (selected, ran, s, has) =
      select-Visits deps (suc (suc (length deps))) [] name known
        (omega (arith, unselected_nil (keys deps), length-keys deps)) in
    (
      keep_selected selected order,
      rw (stop_order, known, ran, ordered) refl,
      λ x. (
        (λ m. elim (s.reached x (ground (arith, member-keep_selected selected order x))) [
          | inl old ↦ absurd (ground arith)
          | inr r ↦ Reaches-Follows deps once r
        ]),
        λ linked.
            let r = linked-Reaches deps once linked in
            let there = Reaches-selected deps s has r in
            let listed = all x (Reaches-key deps known r) in
            ground (arith, member-keep_selected selected order x),
      ),
    )
