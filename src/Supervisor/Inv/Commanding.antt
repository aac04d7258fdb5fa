-- ===== src/Supervisor/Inv/Commanding.antt =====
-- The commands of a client keep the invariant.
mod Stopping
use process_deck.Base.{
  ℕ, ◌≡◌, refl, ap, ◌∙◌, inl, Bool, false, not, Option, none, some, if_ind, option_ind, arith,
}
use process_deck.Base.Result.{Result, ok, err}
use process_deck.Base.Text.{Text}
use process_deck.Config.Validate.{ParseDuration}
use process_deck.Runner.{ExitResult}
use process_deck.Supervisor.{
  terminal_state, same_state, Runtime, Sup, SupError, runtime_of, write_runtime, with_runtime,
  emit_events,
}
use process_deck.Supervisor.Sections.{
  set_state, cancel_restart, is_some, Launch, dependencies_ready,
}
use process_deck.Supervisor.Commands.{
  command_context, is_busy, start_manual, request_stop, request_stops, stop_answer, stop_one,
  stop_each, stop_processes,
}
use process_deck.Supervisor.Inv.{
  waiters_of, IsConsistent, is_done, Inv, IsValid, Inv-write, check_done-IsValid,
  emit_events-IsValid, emit_events-fields, runtime_of-write_self,
}
use process_deck.Supervisor.Inv.Launching.{
  set_state_state, IsConsistent-set_state, cancel_restart-fields, start_or_fail-IsValid,
}
use process_deck.Supervisor.Inv.Ending.{process_exit-IsValid}
pub use Stopping.{
  IsConsistent-request_stop, is_done-request_stop, request_stops-Inv, still_busy,
  stop_answer-IsValid, stopping-IsValid, stop_one-IsValid, stop_each-IsValid,
  stop_processes-IsValid,
}

is_busy-runner : (r : Runtime) → is_busy r ≡ false → is_some r.runner ≡ false
unfolding is_busy is_some
is_busy-runner r h = ground arith

-- What `startManual` writes before it launches.
cancelled-IsValid :
    (s : Sup) (name : Text)
    → IsValid s
    → (r : Runtime) → runtime_of s.processes name ≡ some r
    → is_some r.runner ≡ false
    → IsValid (with_runtime name (record (cancel_restart r) { reached_running = false }) s)
unfolding terminal_state
cancelled-IsValid s name v r found idle =
    let c = v.each name r found in
    let (re, st, ru, pi, ge) = cancel_restart-fields r in
    Inv-write name r _ v found
      (record {
        scheduled = λ h. absurd (ground (arith, re));
        with_runner = λ h. absurd (ground (arith, ru));
        without_runner =
            λ h. (pi ∙ (c.without_runner idle).0, ground (arith, st, (c.without_runner idle).1));
        one_waiter = inl (ground (arith, c.one_waiter));
      })
      (λ other h. refl) (λ still. (still, ground (arith, re, st, v.rest still name r found)))
      v.signalled

module _ (parse : ParseDuration) (join : Text → Text → Text) where
  -- `StartProcess` keeps the invariant.
  pub start_manual-IsValid :
      (now : ℕ) (launch : Launch) (s : Sup) (name : Text)
      → IsValid s
      → IsValid (start_manual parse join now launch s name).0
  unfolding start_manual
  start_manual-IsValid now launch s name v =
      option_ind P (command_context s)
        (λ _.
          option_ind P (runtime_of s.processes name) (λ _. v)
            λ r found.
              if_ind P (is_busy r) (λ _. v)
                λ free.
                  if_ind P (not (dependencies_ready s name)) (λ _. v)
                    λ ready.
                      let r' = record (cancel_restart r) { reached_running = false } in
                      let (re, st, ru, pi, ge) = cancel_restart-fields r in
                      start_or_fail-IsValid parse join (with_runtime name r' s)
                        (cancelled-IsValid s name v r found (is_busy-runner r free)) name r'
                        (runtime_of-write_self name r' r s.processes found)
                        (ap is_some ru ∙ is_busy-runner r free) now launch)
        (λ e _. v)
    where
      P : Sup × Option SupError → Type 0
      P t = IsValid t.0
