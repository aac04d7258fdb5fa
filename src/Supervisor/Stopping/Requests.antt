-- ===== src/Supervisor/Stopping/Requests.antt =====
-- What the first loop of `stopProcesses` and the end of a stopped process make of a process in
-- internal/supervisor/supervisor.go.
use process_deck.Base.{
  ℕ, ◌==◌, ◌≡◌, refl, sym, ap, subst, ◌∙◌, ◌⊎◌, inl, inr, true, false, not, Bool-cases, List, [],
  ◌∷◌, none, some, if_ind, option_ind, arith,
}
use process_deck.Base.Text.{Text, same, same_iff, same_sym, member}
use process_deck.Runner.{ExitResult}
use process_deck.Supervisor.{exited, terminal_state, Runtime, Sup, Event, runtime_of, write_runtime}
use process_deck.Supervisor.Sections.{
  set_state, cancel_restart, all_done, check_done, is_some, exit_state, wants_restart, process_exit,
}
use process_deck.Supervisor.Commands.{request_stop, request_stops}
use process_deck.Supervisor.Inv.{runtime_of-write_runtime, emit_events-fields}
use process_deck.Supervisor.Inv.Launching.{set_state_state, cancel_restart-fields}

-- A process that was asked to stop: no restart of it is scheduled, and it has ended if it has no runner.
pub record IsAsked (r : Runtime) : Type 0 where
  pub asked : r.stop_requested ≡ true
  pub calm : r.restarting ≡ false
  pub ended : is_some r.runner ≡ false → terminal_state r.state ≡ true

abbrev pub Asked : List (Text × Runtime) → Text → Type 0
Asked processes x = (r : Runtime) → runtime_of processes x ≡ some r → IsAsked r

abbrev pub Idle : List (Text × Runtime) → Text → Type 0
Idle processes x = (r : Runtime) → runtime_of processes x ≡ some r → is_some r.runner ≡ false

pub cancel_restart-asked : (r : Runtime) → (cancel_restart r).stop_requested ≡ r.stop_requested
unfolding cancel_restart
cancel_restart-asked r = ground arith

pub request_stop-IsAsked : (now : ℕ) (r : Runtime) → IsAsked (request_stop now r).0
unfolding request_stop is_some terminal_state
request_stop-IsAsked now r =
    let r0 = record r { stop_requested = true; reached_running = false } in
    let r1 = cancel_restart r0 in
    let (re, st, ru, pi, ge) = cancel_restart-fields r0 in
    let asked = cancel_restart-asked r0 in
    option_ind (λ (t : Runtime × List Event). IsAsked t.0) r1.runner
      (λ no_runner.
        if_ind (λ (t : Runtime × List Event). IsAsked t.0) (terminal_state r1.state)
          (λ ended. record { asked = asked; calm = re; ended = λ _. ended })
          (λ _.
            subst IsAsked (sym (set_state_state now r1 exited))
              (record { asked = asked; calm = re; ended = λ _. refl })))
      (λ spec launched. record {
        asked = asked;
        calm = re;
        ended = λ h. absurd (ground (arith, launched));
      })

-- A lookup after a write.
pub write-cases :
    (name x : Text) (r old q : Runtime) (processes : List (Text × Runtime))
    → runtime_of processes name ≡ some old
    → runtime_of (write_runtime name r processes) x ≡ some q
    → ((same name x ≡ true) × (r ≡ q)) ⊎ ((same name x ≡ false) × (runtime_of processes x ≡ some q))
write-cases name x r old q processes found h =
    ground (arith, runtime_of-write_runtime name x r old processes found)

pub Asked-write :
    (name x : Text) (r old : Runtime) (processes : List (Text × Runtime))
    → runtime_of processes name ≡ some old
    → IsAsked r
    → Asked processes x ⊎ (same name x ≡ true)
    → Asked (write_runtime name r processes) x
Asked-write name x r old processes found a before q h =
    elim (write-cases name x r old q processes found h) [
      | inl (here, e) ↦ subst IsAsked e a
      | inr (elsewhere, kept) ↦ elim before [ inl b ↦ b q kept | inr here ↦ absurd (ground arith) ]
    ]

pub request_stops-Asked :
    (now : ℕ) (order : List Text) (processes : List (Text × Runtime)) (x : Text)
    → (member x order ≡ true) ⊎ Asked processes x
    → Asked (request_stops now processes order).0 x
unfolding request_stops member
request_stops-Asked now [] processes x (inl m) = absurd (ground arith)
request_stops-Asked now [] processes x (inr a) = a
request_stops-Asked now (name ∷ order) processes x h =
    let P : List (Text × Runtime) × List Event → Type 0 = λ t. Asked t.0 x in
    option_ind P (runtime_of processes name)
      (λ missing. request_stops-Asked now order processes x (elim h [
        | inr a ↦ inr a
        | inl m ↦ elim (Bool-cases (same x name)) [
          | inl here ↦ inr (λ r found.
              absurd (ground (arith, ap (runtime_of processes) ((same_iff x name).0 here))))
          | inr elsewhere ↦ inl (ground arith)
        ]
      ]))
      (λ r found.
        let r' = (request_stop now r).0 in
        let asked = request_stop-IsAsked now r in
        request_stops-Asked now order (write_runtime name r' processes) x (elim h [
          | inr a ↦ inr (Asked-write name x r' r processes found asked (inl a))
          | inl m ↦ elim (Bool-cases (same x name)) [
            | inl here ↦
                inr (Asked-write name x r' r processes found asked (inr (same_sym name x ∙ here)))
            | inr elsewhere ↦ inl (ground arith)
          ]
        ]))

pub check_done-processes : (s : Sup) → (check_done s).processes ≡ s.processes
unfolding check_done
check_done-processes s =
    if_ind (λ (t : Sup). t.processes ≡ s.processes) (not (all_done s.processes)) (λ _. refl)
      λ _. if_ind (λ (t : Sup). t.processes ≡ s.processes) s.idle (λ _. refl) (λ _. refl)

-- The end of a process that was asked to stop: no restart.
pub process_exit-asked :
    (now g : ℕ) (s : Sup) (name : Text) (r : Runtime) (result : ExitResult)
    → runtime_of s.processes name ≡ some r
    → r.stop_requested ≡ true
    → r.generation ≡ g
    → (process_exit now s name g result).processes
      ≡ write_runtime name
          (record (set_state now
            (record r { pid = 0; exit_code = some result.exit_code; runner = none })
            (exit_state r result)).0 { finished = some true })
          s.processes
unfolding process_exit wants_restart
process_exit-asked now g s name r result found asked current =
    let after =
      (record (set_state now
        (record r { pid = 0; exit_code = some result.exit_code; runner = none })
        (exit_state r result)).0 { finished = some true }) in
    let P : Sup → Type 0 = λ t. t.processes ≡ write_runtime name after s.processes in
    rw (process_exit, found)
      (if_ind P (not (r.generation == g)) (λ other. absurd (ground arith))
        λ _.
          if_ind P (wants_restart s r result) (λ wanted. absurd (ground arith))
            (λ _. (emit_events-fields _ _).0 ∙ check_done-processes _))

-- The runtime that the end of a process leaves.
abbrev pub ended_run : ℕ → Runtime → ExitResult → Runtime
ended_run now r result =
    record (set_state now (record r { pid = 0; exit_code = some result.exit_code; runner = none })
      (exit_state r result)).0 { finished = some true }

pub ended_run-IsAsked :
    (now : ℕ) (r : Runtime) (result : ExitResult)
    → IsAsked r
    → IsAsked (ended_run now r result) × (is_some (ended_run now r result).runner ≡ false)
unfolding exit_state terminal_state is_some
ended_run-IsAsked now r result a =
    let e =
      set_state_state now (record r { pid = 0; exit_code = some result.exit_code; runner = none })
        (exit_state r result) in
    (
      record {
        asked = ap (λ q. q.stop_requested) e ∙ a.asked;
        calm = ap (λ q. q.restarting) e ∙ a.calm;
        ended = λ _. ap (λ q. terminal_state q.state) e ∙ ground (arith, a.asked);
      },
      ap (λ q. is_some q.runner) e,
    )
