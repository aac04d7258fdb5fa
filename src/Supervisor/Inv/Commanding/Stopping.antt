-- ===== src/Supervisor/Inv/Commanding/Stopping.antt =====
-- `stopProcesses` keeps the invariant.
use process_deck.Base.{
  ℕ, ◌≡◌, refl, ap, ◌∙◌, Bool, true, List, [], ◌∷◌, Option, none, some, option_ind, arith,
}
use process_deck.Base.Result.{Result, ok, err}
use process_deck.Base.Text.{Text}
use process_deck.Runner.{ExitResult}
use process_deck.Supervisor.{
  stopping, terminal_state, same_state, Runtime, Sup, SupError, runtime_of, write_runtime,
  with_runtime, emit_events,
}
use process_deck.Supervisor.Sections.{set_state, cancel_restart, is_some}
use process_deck.Supervisor.Commands.{
  request_stop, request_stops, Stops, stop_answer, stop_one, stop_each, stop_processes,
}
use process_deck.Supervisor.Inv.{
  waiters_of, IsConsistent, is_done, Inv, IsValid, Inv-write, check_done-IsValid,
  emit_events-IsValid, emit_events-fields, runtime_of-write_self,
}
use process_deck.Supervisor.Inv.Launching.{set_state_state, IsConsistent-set_state}
use process_deck.Supervisor.Inv.Ending.{process_exit-IsValid}

-- `stopProcesses` on one process: what it records does not disturb a run.
pub IsConsistent-request_stop :
    (now : ℕ) (r : Runtime) (waiters : List ℕ)
    → IsConsistent r waiters
    → IsConsistent (request_stop now r).0 waiters
unfolding request_stop cancel_restart set_state same_state terminal_state is_some
IsConsistent-request_stop now r waiters c = ground arith

pub is_done-request_stop :
    (now : ℕ) (r : Runtime) → is_done r ≡ true → is_done (request_stop now r).0 ≡ true
unfolding request_stop cancel_restart set_state same_state terminal_state
is_done-request_stop now r h = ground arith

pub request_stops-Inv :
    (now : ℕ) (order : List Text) (processes : List (Text × Runtime)) {waiting : List (Text × ℕ)}
    {idle closed : Bool}
    → Inv processes waiting idle closed
    → Inv (request_stops now processes order).0 waiting idle closed
unfolding request_stops
request_stops-Inv now [] processes v = v
request_stops-Inv now (name ∷ order) processes {waiting} {idle} {closed} v =
    by_found (request_stops-Inv now order processes v)
      (λ r v'. request_stops-Inv now order (write_runtime name (request_stop now r).0 processes) v')
      (runtime_of processes name) refl
  where
    by_found :
        Inv (request_stops now processes order).0 waiting idle closed
        → ((r : Runtime)
            → Inv (write_runtime name (request_stop now r).0 processes) waiting idle closed
            → Inv
                (request_stops now (write_runtime name (request_stop now r).0 processes) order).0
                waiting
                idle
                closed)
        → (o : Option Runtime) → runtime_of processes name ≡ o
        → Inv (request_stops now processes (name ∷ order)).0 waiting idle closed
    by_found skip next none e = rw (e, request_stops) skip
    by_found skip next (some r) e =
        rw (e, request_stops)
          (next r (
            Inv-write name r _ v e (IsConsistent-request_stop now r _ (v.each name r e))
              (λ _ _. refl) (λ still. (still, is_done-request_stop now r (v.rest still name r e)))
              v.signalled))

-- The supervisor is not idle while a process has a runner.
pub still_busy :
    (s : Sup) (name : Text)
    → IsValid s
    → (r : Runtime) → runtime_of s.processes name ≡ some r
    → is_some r.runner ≡ true
    → s.idle ≡ true
    → ⊥
unfolding terminal_state
still_busy s name v r found launched idle =
    ground (arith, v.rest idle name r found, (v.each name r found).with_runner launched)

pub stop_answer-IsValid :
    (now g : ℕ) (s : Sup) (name : Text) (answer : Result Text ExitResult) (r : Runtime)
    → IsValid s
    → runtime_of s.processes name ≡ some r
    → is_some r.runner ≡ true
    → IsValid (stop_answer now s name g answer).0
unfolding stop_answer
stop_answer-IsValid now g s name (err message) r v found launched = emit_events-IsValid _ _ v
stop_answer-IsValid now g s name (ok result) r v found launched =
    process_exit-IsValid s v name r found now g result (λ _. launched)

-- A process is marked as stopping, and then stopped.
pub stopping-IsValid :
    (now : ℕ) (stops : Stops) (s : Sup) (name : Text)
    → IsValid s
    → (r : Runtime) → runtime_of s.processes name ≡ some r
    → is_some r.runner ≡ true
    → let (r', changed) = set_state now r stopping in
      IsValid
        (stop_answer now
          (emit_events changed (with_runtime name r' s))
          name
          r.generation
          (stops name)).0
unfolding is_some
stopping-IsValid now stops s name v r found launched =
    let (r', changed) = set_state now r stopping in
    let same_r = set_state_state now r stopping in
    let c = v.each name r found in
    let s1 = with_runtime name r' s in
    let marked : IsValid s1 =
      Inv-write name r r' v found
        (IsConsistent-set_state now r stopping (waiters_of name s.waiting) (record {
          scheduled = λ h. absurd (ground (arith, (c.with_runner launched).1));
          with_runner = λ h. (refl, (c.with_runner launched).1);
          without_runner = λ h. absurd (ground arith);
          one_waiter = c.one_waiter;
        }))
        (λ other h. refl) (λ idle. absurd (still_busy s name v r found launched idle))
        v.signalled in
    stop_answer-IsValid now r.generation (emit_events changed s1) name (stops name) r'
      (emit_events-IsValid changed s1 marked)
      (ap (λ ps. runtime_of ps name) (emit_events-fields changed s1).0
        ∙ runtime_of-write_self name r' r s.processes found)
      (ap (λ q. is_some q.runner) same_r ∙ launched)

pub stop_one-IsValid :
    (now : ℕ) (stops : Stops) (s : Sup) (name : Text)
    → IsValid s
    → IsValid (stop_one now stops s name).0
unfolding stop_one is_some
stop_one-IsValid now stops s name v =
    option_ind (λ (t : Sup × List SupError). IsValid t.0) (runtime_of s.processes name) (λ _. v)
      λ r found.
        option_ind (λ (t : Sup × List SupError). IsValid t.0) r.runner (λ _. v)
          λ spec launched. stopping-IsValid now stops s name v r found (rw launched)

pub stop_each-IsValid :
    (now : ℕ) (stops : Stops) (order : List Text) (s : Sup)
    → IsValid s
    → IsValid (stop_each now stops s order).0
unfolding stop_each
stop_each-IsValid now stops [] s v = v
stop_each-IsValid now stops (name ∷ order) s v =
    stop_each-IsValid now stops order (stop_one now stops s name).0
      (stop_one-IsValid now stops s name v)

pub stop_processes-IsValid :
    (now : ℕ) (stops : Stops) (s : Sup) (order : List Text)
    → IsValid s
    → IsValid (stop_processes now stops s order).0
unfolding stop_processes
stop_processes-IsValid now stops s order v = check_done-IsValid _ (
    stop_each-IsValid now stops order _
      (emit_events-IsValid _ _ (request_stops-Inv now order s.processes v)))
