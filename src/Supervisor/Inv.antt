-- ===== src/Supervisor/Inv.antt =====
-- The invariant of the supervisor's state, and how a section that writes one process keeps it.
pub mod Launching
pub mod Ending
pub mod Commanding
use process_deck.Base.{
  ℕ, suc, ◌+◌, ◌==◌, ◌≡◌, ◌≢◌, refl, sym, ap, subst, ◌∙◌, ◌⊎◌, inl, inr, Bool, true, false, not,
  ◌&&◌, ◌||◌, List, [], ◌∷◌, ◌++◌, Option, none, some, if◌then◌else◌, Bool-cases, if_ind, arith,
}
use process_deck.Base.Text.{Text, same, same_iff, same_self, same_sym}
use process_deck.Runner.{Spec}
use process_deck.Supervisor.{
  State, pending, starting, running, stopping, exited, failed, skipped, terminal_state, Runtime,
  Sup, Event, runtime_of, write_runtime, emit_events,
}
use process_deck.Supervisor.Sections.{all_done, check_done, is_some}

-- The states of a process that the supervisor has launched, or is launching.
abbrev pub is_live : State → Bool
is_live starting = true
is_live running = true
is_live stopping = true
is_live _ = false

-- The generations for which a goroutine waits for the end of a process of this name.
abbrev pub waiters_of : Text → List (Text × ℕ) → List ℕ
waiters_of name [] = []
waiters_of name ((n, g) ∷ rest) =
    if same n name then g ∷ waiters_of name rest else waiters_of name rest

-- A process without a runner has no PID and is neither running nor stopping; one with a runner is
-- starting, running or stopping, and no restart of it is scheduled. A goroutine waits for at most
-- one run of it, which is the current one.
pub record IsConsistent (r : Runtime) (waiters : List ℕ) : Type 0 where
  pub scheduled : r.restarting ≡ true → r.state ≡ pending
  pub with_runner : is_some r.runner ≡ true → (is_live r.state ≡ true) × (r.restarting ≡ false)
  pub without_runner :
      is_some r.runner ≡ false → (r.pid ≡ 0) × ((is_live r.state ≡ false) ⊎ (r.state ≡ starting))
  pub one_waiter : (waiters ≡ []) ⊎ (waiters ≡ r.generation ∷ []) × (is_some r.runner ≡ true)

-- A process that counts as finished in `checkDoneLocked`.
abbrev pub is_done : Runtime → Bool
is_done r = not (r.restarting || not (terminal_state r.state))

-- The supervisor is idle only while every process is finished, and then `done` is closed.
pub record Inv (processes : List (Text × Runtime)) (waiting : List (Text × ℕ)) (idle closed : Bool)
    : Type 0 where
  pub each :
      (name : Text) (r : Runtime)
      → runtime_of processes name ≡ some r
      → IsConsistent r (waiters_of name waiting)
  pub rest :
      idle ≡ true
      → (name : Text) (r : Runtime) → runtime_of processes name ≡ some r
      → is_done r ≡ true
  pub signalled : closed ≡ idle

abbrev pub IsValid : Sup → Type 0
IsValid s = Inv s.processes s.waiting s.idle s.done_closed

pub runtime_of-write_runtime :
    (name other : Text) (r old : Runtime) (processes : List (Text × Runtime))
    → runtime_of processes name ≡ some old
    → runtime_of (write_runtime name r processes) other
      ≡ (if same name other then some r else runtime_of processes other)
unfolding runtime_of write_runtime
runtime_of-write_runtime name other r old [] h = cc
runtime_of-write_runtime name other r old ((key, p) ∷ rest) h = ground (
  arith,
  same_iff key name,
  same_iff key other,
  same_iff name other,
  runtime_of-write_runtime name other r old rest,
)

-- A section that writes one process.
pub Inv-write :
    {processes : List (Text × Runtime)} {waiting waiting' : List (Text × ℕ)}
    {idle idle' closed closed' : Bool} (name : Text) (old r : Runtime)
    → Inv processes waiting idle closed
    → runtime_of processes name ≡ some old
    → IsConsistent r (waiters_of name waiting')
    → ((other : Text)
        → same name other ≡ false
        → waiters_of other waiting' ≡ waiters_of other waiting)
    → (idle' ≡ true → (idle ≡ true) × (is_done r ≡ true))
    → closed' ≡ idle'
    → Inv (write_runtime name r processes) waiting' idle' closed'
Inv-write {processes} {waiting} {waiting'} {idle} {idle'} {closed} name old r v found ok_r others
      quiet signalled =
    record {
      each = λ other p h. elim (Bool-cases (same name other)) [
        | inl here ↦
            subst (λ q. IsConsistent q (waiters_of other waiting')) {x = r} {y = p}
              (ground (arith, lookup other))
              (subst (λ n. IsConsistent r (waiters_of n waiting')) ((same_iff name other).0 here)
                ok_r)
        | inr there ↦
            subst (IsConsistent p) (sym (others other there))
              (v.each other p (ground (arith, lookup other)))
      ];
      rest = λ still other p h. elim (Bool-cases (same name other)) [
        | inl here ↦
            subst (λ q. is_done q ≡ true) {x = r} {y = p} (ground (arith, lookup other))
              (quiet still).1
        | inr there ↦ v.rest (quiet still).0 other p (ground (arith, lookup other))
      ];
      signalled = signalled;
    }
  where
    lookup :
        (other : Text)
        → runtime_of (write_runtime name r processes) other
          ≡ (if same name other then some r else runtime_of processes other)
    lookup other = runtime_of-write_runtime name other r old processes found

all_done-lookup :
    (processes : List (Text × Runtime)) (name : Text) (r : Runtime)
    → all_done processes ≡ true
    → runtime_of processes name ≡ some r
    → is_done r ≡ true
unfolding all_done runtime_of
all_done-lookup [] name r h found = cc
all_done-lookup ((key, p) ∷ rest) name r h found = elim (Bool-cases (same key name)) [
  | inl here ↦ subst (λ q. is_done q ≡ true) {x = p} {y = r} (ground arith) (ground arith)
  | inr there ↦ all_done-lookup rest name r (ground arith) (ground arith)
]

pub check_done-IsValid : (s : Sup) → IsValid s → IsValid (check_done s)
unfolding check_done
check_done-IsValid s v =
    if_ind IsValid (not (all_done s.processes)) (λ _. v)
      λ all.
        if_ind IsValid s.idle (λ _. v)
          λ _. record {
            each = v.each;
            rest = λ _ name r h. all_done-lookup s.processes name r (ground arith) h;
            signalled = refl;
          }

pub emit_events-IsValid :
    (events : List Event) (s : Sup) → IsValid s → IsValid (emit_events events s)
unfolding emit_events
emit_events-IsValid events s v = if_ind IsValid s.events_closed (λ _. v) (λ _. v)

pub emit_events-fields :
    (events : List Event) (s : Sup)
    → ((emit_events events s).processes ≡ s.processes)
      × ((emit_events events s).waiting ≡ s.waiting)
unfolding emit_events
emit_events-fields events s =
    if_ind (λ (t : Sup). (t.processes ≡ s.processes) × (t.waiting ≡ s.waiting)) s.events_closed
      (λ _. (refl, refl)) (λ _. (refl, refl))

pub runtime_of-write_self :
    (name : Text) (r old : Runtime) (processes : List (Text × Runtime))
    → runtime_of processes name ≡ some old
    → runtime_of (write_runtime name r processes) name ≡ some r
runtime_of-write_self name r old processes found =
    ground (arith, runtime_of-write_runtime name name r old processes found, same_self name)
