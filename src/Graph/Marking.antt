-- ===== src/Graph/Marking.antt =====
-- What `visitGraph` may rely on of the marks that it finds, and promises of those that it leaves.
use process_deck.Base.{
  ℕ, ◌+◌, ◌≤◌, ◌<◌, ◌≡◌, refl, inl, inr, true, List, [], ◌∷◌, ◌++◌, Bool-cases, if◌then◌else◌,
  arith,
}
use process_deck.Base.Text.{Text, same, same_iff, member, member-append, AllIn}
use process_deck.Graph.{Deps, deps_of, Mark, unseen, active, finished, Marks, mark_of}

-- Wherever a process was marked as finished, all that it depends on was finished before.
abbrev pub IsOrdered : Deps → Marks → Type 0
IsOrdered deps [] = Unit
IsOrdered deps ((name, finished) ∷ marks) =
    AllIn (λ dep. mark_of marks dep ≡ finished) (deps_of deps name) × IsOrdered deps marks
IsOrdered deps ((name, active) ∷ marks) = IsOrdered deps marks
IsOrdered deps ((name, unseen) ∷ marks) = ⊥

-- The active processes stay as they are, and what is finished stays finished.
abbrev pub Keeps : Marks → Marks → Type 0
Keeps before after =
    (name : Text)
    → (mark_of before name ≡ finished → mark_of after name ≡ finished)
      × (mark_of before name ≡ active → mark_of after name ≡ active)
      × (mark_of after name ≡ active → mark_of before name ≡ active)

pub Keeps-refl : (marks : Marks) → Keeps marks marks
Keeps-refl marks name = (λ h. h, λ h. h, λ h. h)

pub Keeps-trans : (a b c : Marks) → Keeps a b → Keeps b c → Keeps a c
Keeps-trans a b c p q name =
    (λ h. (q name).0 ((p name).0 h), λ h. (q name).1 ((p name).1 h), λ h. (p name).2 ((q name).2 h))

-- Every active process is on the stack.
abbrev pub Stacked : Marks → List Text → Type 0
Stacked marks stack = (name : Text) → mark_of marks name ≡ active → member name stack ≡ true

pub Stacked-Keeps :
    (before after : Marks) (stack : List Text)
    → Stacked before stack
    → Keeps before after
    → Stacked after stack
Stacked-Keeps before after stack s k name h = s name ((k name).2 h)

-- How many of the names have not been reached.
unfoldable pub unreached : Marks → List Text → ℕ
unreached marks [] = 0
unreached marks (name ∷ names) = elim (mark_of marks name) [
  | unseen ↦ unreached marks names + 1
  | _ ↦ unreached marks names
]

pub unreached-Keeps :
    (before after : Marks) (names : List Text)
    → Keeps before after
    → unreached after names ≤ unreached before names
unfolding unreached
unreached-Keeps before after [] k = omega arith
unreached-Keeps before after (name ∷ names) k =
    let (f, a, b) = k name in ground (arith, f, a, b, unreached-Keeps before after names k)

pub mark_of-cons :
    (name other : Text) (mark : Mark) (marks : Marks)
    → mark_of ((name, mark) ∷ marks) other ≡ (if same name other then mark else mark_of marks other)
unfolding mark_of
mark_of-cons name other mark marks = refl

unreached-cons_le :
    (name : Text) (marks : Marks) (names : List Text)
    → unreached ((name, active) ∷ marks) names ≤ unreached marks names
unfolding unreached
unreached-cons_le name marks [] = omega arith
unreached-cons_le name marks (other ∷ names) =
    ground (arith, mark_of-cons name other active marks, unreached-cons_le name marks names)

-- Reaching one of the names leaves fewer.
pub unreached-cons_lt :
    (name : Text) (marks : Marks) (names : List Text)
    → member name names ≡ true
    → mark_of marks name ≡ unseen
    → unreached ((name, active) ∷ marks) names < unreached marks names
unfolding unreached member
unreached-cons_lt name marks [] m u = cc
unreached-cons_lt name marks (other ∷ names) m u = elim (Bool-cases (same name other)) [
  | inl here ↦ ground (
    arith,
    (same_iff name other).0 here,
    mark_of-cons name other active marks,
    unreached-cons_le name marks names,
  )
  | inr there ↦
      ground (arith, mark_of-cons name other active marks, unreached-cons_lt name marks names)
]

pub Stacked-active :
    (name : Text) (marks : Marks) (stack : List Text)
    → Stacked marks stack
    → Stacked ((name, active) ∷ marks) (stack ++ (name ∷ []))
unfolding member
Stacked-active name marks stack s other h = ground (
  arith,
  mark_of-cons name other active marks,
  member-append other stack (name ∷ []),
  same_iff name other,
  same_iff other name,
  s other,
)

-- Marking a process first as active and, after its dependencies, as finished.
pub Keeps-finished :
    (name : Text) (before after : Marks)
    → mark_of before name ≡ unseen
    → Keeps ((name, active) ∷ before) after
    → Keeps before ((name, finished) ∷ after)
Keeps-finished name before after u k other =
    let (f, a, b) = k other in
    let old = mark_of-cons name other active before in
    let new = mark_of-cons name other finished after in
    let eq = same_iff name other in
    (
      (λ h. ground (arith, f, old, new, eq)),
      (λ h. ground (arith, a, old, new, eq)),
      (λ h. ground (arith, b, old, new, eq)),
    )
