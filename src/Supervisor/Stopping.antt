-- ===== src/Supervisor/Stopping.antt =====
-- What `stopProcesses` of internal/supervisor/supervisor.go leaves when every runner can be stopped.
mod Requests
use process_deck.Base.{
  ℕ, ◌==◌, ◌≡◌, refl, sym, ap, subst, ◌∙◌, ◌⊎◌, inl, inr, true, false, not, Bool-cases, List, [],
  ◌∷◌, none, some, if_ind, option_ind, arith,
}
use process_deck.Base.Result.{ok, result_ind}
use process_deck.Base.Text.{Text, same, same_iff, same_self, same_sym, member}
use process_deck.Runner.{ExitResult}
use process_deck.Supervisor.{
  stopping, exited, terminal_state, Runtime, Sup, Event, SupError, runtime_of, write_runtime,
  with_runtime, emit_events,
}
use process_deck.Supervisor.Sections.{
  set_state, cancel_restart, all_done, check_done, is_some, exit_state, wants_restart, process_exit,
}
use process_deck.Supervisor.Commands.{
  request_stop, request_stops, Stops, stop_answer, stop_one, stop_each, stop_processes, stop_order,
  stop_process, stop_all,
}
use process_deck.Supervisor.Inv.{
  runtime_of-write_runtime, runtime_of-write_self, emit_events-fields,
}
use process_deck.Graph.{keys, validate_graph, reverse_dependency_order}
use process_deck.Graph.Order.{reverse_dependency_order-DependentsFirst}
use process_deck.Graph.Checks.{NoRepeats}
use process_deck.Graph.Acyclic.{Follows}
use process_deck.Supervisor.StopOrder.{stop_order_iff}
use process_deck.Supervisor.Inv.Launching.{set_state_state, cancel_restart-fields}
use process_deck.Supervisor.Stopping.Requests.{
  IsAsked, Asked, Idle, cancel_restart-asked, request_stop-IsAsked, write-cases, Asked-write,
  request_stops-Asked, check_done-processes, process_exit-asked, ended_run, ended_run-IsAsked,
}

-- What one round does to a process: it stays asked to stop and without a runner, and the process of the
-- round loses its runner.
record StopsOne (name x : Text) (before after : List (Text × Runtime)) : Type 0 where
  still_asked : Asked before x → Asked after x
  no_runner : (same name x ≡ true) ⊎ Idle before x → Idle after x

same-lookup :
    (name x : Text) (processes : List (Text × Runtime))
    → same name x ≡ true
    → runtime_of processes x ≡ runtime_of processes name
same-lookup name x processes here = ap (runtime_of processes) (sym ((same_iff name x).0 here))

two_writes :
    (name x : Text) (r r' r2 : Runtime) (processes : List (Text × Runtime))
    → runtime_of processes name ≡ some r
    → IsAsked r'
    → IsAsked r2 × (is_some r2.runner ≡ false)
    → StopsOne name x processes (write_runtime name r2 (write_runtime name r' processes))
two_writes name x r r' r2 processes found a' (a2, idle) =
    let inner = write_runtime name r' processes in
    let found' = runtime_of-write_self name r' r processes found in
    record {
      still_asked = λ a.
          Asked-write name x r2 r' inner found' a2
            (inl (Asked-write name x r' r processes found a' (inl a)));
      no_runner = λ h q k. elim (write-cases name x r2 r' q inner found' k) [
        | inl (here, e) ↦ subst (λ p. is_some p.runner ≡ false) e idle
        | inr (elsewhere, kept) ↦ elim (write-cases name x r' r q processes found kept) [
          | inl (here, e) ↦ absurd (ground arith)
          | inr (_, older) ↦ elim h [ inl here ↦ absurd (ground arith) | inr i ↦ i q older ]
        ]
      ];
    }

module _ (now : ℕ) (stops : Stops)
    (willing : (name : Text) → (result : ExitResult) × (stops name ≡ ok result)) where
  -- The end of a process that was asked to stop, after it was marked as stopping.
  stopped-processes :
      (s : Sup) (name : Text) (r : Runtime)
      → runtime_of s.processes name ≡ some r
      → r.stop_requested ≡ true
      → let (r', changed) = set_state now r stopping in
        let s1 = emit_events changed (with_runtime name r' s) in
        (stop_answer now s1 name r.generation (stops name)).0.processes
        ≡ write_runtime name (ended_run now r' (willing name).0) (write_runtime name r' s.processes)
  unfolding stop_answer
  stopped-processes s name r found asked =
      let (r', changed) = set_state now r stopping in
      let e = set_state_state now r stopping in
      let s1 = emit_events changed (with_runtime name r' s) in
      let written = (emit_events-fields changed (with_runtime name r' s)).0 in
      let (result, answered) = willing name in
      rw answered (
        process_exit-asked now r.generation s1 name r' result
          (ap (λ ps. runtime_of ps name) written
            ∙ runtime_of-write_self name r' r s.processes found)
          (ap (λ q. q.stop_requested) e ∙ asked) (ap (λ q. q.generation) e)
        ∙ ap (write_runtime name (ended_run now r' result)) written)

  stop_one-StopsOne :
      (s : Sup) (name x : Text)
      → Asked s.processes name
      → StopsOne name x s.processes (stop_one now stops s name).0.processes
  unfolding stop_one is_some
  stop_one-StopsOne s name x asked =
      let P : Sup × List SupError → Type 0 = λ t. StopsOne name x s.processes t.0.processes in
      option_ind P (runtime_of s.processes name)
        (λ missing. record {
          still_asked = λ a. a;
          no_runner = λ h. elim h [
            | inl here ↦ λ q k. absurd (ground (arith, same-lookup name x s.processes here))
            | inr i ↦ i
          ];
        })
        λ r found.
          option_ind P r.runner
            (λ ended. record {
              still_asked = λ a. a;
              no_runner = λ h. elim h [
                | inl here ↦ λ q k. ground (arith, same-lookup name x s.processes here)
                | inr i ↦ i
              ];
            })
            λ spec launched.
              let r' = (set_state now r stopping).0 in
              let e = set_state_state now r stopping in
              let a = asked r found in
              let a' : IsAsked r' = subst IsAsked (sym e) (record {
                asked = a.asked;
                calm = a.calm;
                ended = λ h. absurd (ground (arith, launched));
              }) in
              subst (StopsOne name x s.processes) (sym (stopped-processes s name r found a.asked)) (
                two_writes name x r r' (ended_run now r' (willing name).0) s.processes found a'
                  (ended_run-IsAsked now r' (willing name).0 a'))

  stop_each-Idle :
      (order : List Text) (s : Sup) (x : Text)
      → ((n : Text) → member n order ≡ true → Asked s.processes n)
      → Asked s.processes x
      → (member x order ≡ true) ⊎ Idle s.processes x
      → let after = (stop_each now stops s order).0.processes in Asked after x × Idle after x
  unfolding stop_each member
  stop_each-Idle [] s x all a (inl m) = absurd (ground arith)
  stop_each-Idle [] s x all a (inr i) = (a, i)
  stop_each-Idle (name ∷ order) s x all a h =
      let s1 = (stop_one now stops s name).0 in
      let first = all name (ground (arith, same_self name)) in
      let round = stop_one-StopsOne s name in
      stop_each-Idle order s1 x (λ n m. (round n first).still_asked (all n (ground arith)))
        ((round x first).still_asked a)
        (elim h [
          | inr i ↦ inr ((round x first).no_runner (inr i))
          | inl m ↦ elim (Bool-cases (same x name)) [
            | inl here ↦ inr ((round x first).no_runner (inl (same_sym name x ∙ here)))
            | inr elsewhere ↦ inl (ground arith)
          ]
        ])

  -- After `stopProcesses` every process of the order has ended: it has no runner, its state is final,
  -- and no restart of it is scheduled.
  stop_processes-ended :
      (s : Sup) (order : List Text) (x : Text) (r : Runtime)
      → member x order ≡ true
      → runtime_of (stop_processes now stops s order).0.processes x ≡ some r
      → (is_some r.runner ≡ false) × (terminal_state r.state ≡ true) × (r.restarting ≡ false)
  unfolding stop_processes
  stop_processes-ended s order x r m found =
      let (processes, events) = request_stops now s.processes order in
      let s1 = emit_events events (record s { processes = processes }) in
      let written = (emit_events-fields events (record s { processes = processes })).0 in
      let asked : (n : Text) → member n order ≡ true → Asked s1.processes n = λ n k.
        subst (λ ps. Asked ps n) (sym written)
          (request_stops-Asked now order s.processes n (inl k)) in
      let (a, i) = stop_each-Idle order s1 x asked (asked x m) (inl m) in
      let at =
        ap (λ ps. runtime_of ps x) (sym (check_done-processes (stop_each now stops s1 order).0))
        ∙ found in
      let q = a r at in (i r at, q.ended (i r at), q.calm)

  -- `StopProcess` of a valid map, when every runner can be stopped: the process, and each that depends on
  -- it, directly or through others, has ended afterwards, with no runner, in a final state, and with no
  -- restart scheduled.
  pub stop_process-ended :
      (s : Sup) (name x : Text) (r : Runtime)
      → validate_graph s.deps ≡ ok tt
      → NoRepeats (keys s.deps)
      → member name (keys s.deps) ≡ true
      → (x ≡ name) ⊎ Follows s.deps x name
      → runtime_of (stop_process now stops s name).0.processes x ≡ some r
      → (is_some r.runner ≡ false) × (terminal_state r.state ≡ true) × (r.restarting ≡ false)
  unfolding stop_process
  stop_process-ended s name x r accepted once known linked found =
      let (order, ordered, exact) = stop_order_iff s.deps name accepted once known in
      result_ind
        (λ (t : Sup × List SupError).
          runtime_of t.0.processes x ≡ some r
          → (is_some r.runner ≡ false) × (terminal_state r.state ≡ true) × (r.restarting ≡ false))
        (stop_order s.deps name) (λ e refused _. absurd (ground (arith, ordered)))
        (λ names picked.
          stop_processes-ended s names x r (ground (arith, ordered, (exact x).1 linked)))
        found

  -- `StopAll` of a valid map, when every runner can be stopped: each process has ended afterwards, with no
  -- runner, in a final state, and with no restart scheduled.
  pub stop_all-ended :
      (s : Sup) (x : Text) (r : Runtime)
      → validate_graph s.deps ≡ ok tt
      → member x (keys s.deps) ≡ true
      → runtime_of (stop_all now stops s).0.processes x ≡ some r
      → (is_some r.runner ≡ false) × (terminal_state r.state ≡ true) × (r.restarting ≡ false)
  unfolding stop_all
  stop_all-ended s x r accepted known found =
      let (order, ordered, first, all, size) =
        reverse_dependency_order-DependentsFirst s.deps accepted in
      result_ind
        (λ (t : Sup × List SupError).
          runtime_of t.0.processes x ≡ some r
          → (is_some r.runner ≡ false) × (terminal_state r.state ≡ true) × (r.restarting ≡ false))
        (reverse_dependency_order s.deps) (λ e refused _. absurd (ground (arith, ordered)))
        (λ names picked.
          stop_processes-ended (record s { stopping = true }) names x r
            (ground (arith, ordered, all x known)))
        found
