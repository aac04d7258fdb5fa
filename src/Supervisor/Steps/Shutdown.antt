-- ===== src/Supervisor/Steps/Shutdown.antt =====
-- What `stopping` promises in internal/supervisor/supervisor.go: after it, no section launches a run.
mod Kept
use process_deck.Base.{
  ℕ, ◌==◌, ◌≡◌, refl, sym, ap, subst, ◌∙◌, Bool, true, not, ◌||◌, List, [], ◌∷◌, Option, if_ind,
  option_ind, arith,
}
use process_deck.Base.Result.{Result, ok, err}
use process_deck.Base.Text.{Text}
use process_deck.Config.Validate.{ParseDuration}
use process_deck.Runner.{ExitResult, LogLine}
use process_deck.Supervisor.{
  SupError, supervisor_stopping, Runtime, Sup, Event, runtime_of, emit_events, no_event,
  supervisor_stopped, with_runtime, stopping,
}
use process_deck.Supervisor.Sections.{
  set_state, check_done, skip_process, mark_start_failed, Launch, prepare_start, start_process,
  launch_prepared, fail_start, start_or_fail, process_exit, backoff_passed, forward_log,
  has_generation, remove, wants_restart, all_done, restart_valid,
}
use process_deck.Supervisor.Commands.{start_manual, Stops, stop_one, stop_answer, command_context}
use process_deck.Supervisor.Lifecycle.{run_begin, run_done, run_end, close_events}
use process_deck.Supervisor.Inv.{waiters_of}
use process_deck.Supervisor.Steps.{
  Step, begun, context_ends, started, skips, start_commanded, stops_requested, stop_done,
  done_checked, stop_all_begun, process_ended, backoff_ended, logged, idle_seen, run_ended, Reach,
  here, then_step,
}
pub use Kept.{
  IsShrunk, IsShrunk-trans, Keeps, Keeps-self, Keeps-IsShrunk, remove-fewer, emit_events-Keeps,
  check_done-Keeps, written-Keeps, skip_process-Keeps, mark_start_failed-Keeps, forward_log-Keeps,
  prepare_start-refused, start_or_fail-Keeps, start_manual-Keeps, backoff_passed-Keeps,
}

process_exit-IsShrunk :
    (now : ℕ) (s : Sup) (name : Text) (g : ℕ) (result : ExitResult)
    → s.stopping ≡ true
    → IsShrunk s (process_exit now s name g result)
unfolding process_exit wants_restart
process_exit-IsShrunk now s name g result h =
    let left = remove name g s.waiting in
    let s0 = record s { waiting = left } in
    let fewer : IsShrunk s s0 = record {
      still = h;
      no_new_run = λ other k. remove-fewer other name k g s.waiting;
    } in
    option_ind (IsShrunk s) (runtime_of s.processes name) (λ _. fewer)
      λ r _.
        if_ind (IsShrunk s) (not (r.generation == g)) (λ _. fewer)
          λ _.
            if_ind (IsShrunk s) (wants_restart s r result) (λ wanted. absurd (ground arith))
              (λ _. IsShrunk-trans fewer (
                Keeps-IsShrunk {s = s0} h (
                  emit_events-Keeps _ _
                    (check_done-Keeps _ (record { stop = refl; wait = refl })))))

stop_answer-IsShrunk :
    (now : ℕ) (s : Sup) (name : Text) (g : ℕ) (answer : Result Text ExitResult)
    → s.stopping ≡ true
    → IsShrunk s (stop_answer now s name g answer).0
unfolding stop_answer
stop_answer-IsShrunk now s name g (err message) h =
    Keeps-IsShrunk h (emit_events-Keeps _ s (Keeps-self s))
stop_answer-IsShrunk now s name g (ok result) h = process_exit-IsShrunk now s name g result h

stop_one-IsShrunk :
    (now : ℕ) (stops : Stops) (s : Sup) (name : Text)
    → s.stopping ≡ true
    → IsShrunk s (stop_one now stops s name).0
unfolding stop_one
stop_one-IsShrunk now stops s name h =
    let same_s = Keeps-IsShrunk h (Keeps-self s) in
    option_ind (λ (t : Sup × List SupError). IsShrunk s t.0) (runtime_of s.processes name)
      (λ _. same_s)
      λ r _.
        option_ind (λ (t : Sup × List SupError). IsShrunk s t.0) r.runner (λ _. same_s)
          λ spec _.
            let (r', changed) = set_state now r stopping in
            let marked =
              emit_events-Keeps changed (with_runtime name r' s)
                (written-Keeps s name r' (Keeps-self s)) in
            IsShrunk-trans (Keeps-IsShrunk h marked) (
              stop_answer-IsShrunk now (emit_events changed (with_runtime name r' s)) name
                r.generation (stops name) (marked.stop ∙ h))

Step-IsShrunk :
    (parse : ParseDuration) (join : Text → Text → Text) {s t : Sup}
    → Step parse join s t
    → s.stopping ≡ true
    → IsShrunk s t
unfolding run_begin run_done run_end close_events
Step-IsShrunk parse join {s} begun h =
    if_ind (λ (t : Sup × Option SupError). IsShrunk s t.0) s.run_ctx
      (λ _. Keeps-IsShrunk h (Keeps-self s))
      (λ _. Keeps-IsShrunk h (record { stop = refl; wait = refl }))
Step-IsShrunk parse join {s} context_ends h = Keeps-IsShrunk h (record { stop = refl; wait = refl })
Step-IsShrunk parse join {s} (started now launch name r found idle) h =
    Keeps-IsShrunk h (start_or_fail-Keeps parse join now launch s name h)
Step-IsShrunk parse join {s} (skips now name r found idle calm) h =
    Keeps-IsShrunk h (skip_process-Keeps now s name (Keeps-self s))
Step-IsShrunk parse join {s} (start_commanded now launch name) h =
    Keeps-IsShrunk h (start_manual-Keeps parse join now launch s name h)
Step-IsShrunk parse join {s} (stops_requested now order) h =
    Keeps-IsShrunk h (emit_events-Keeps _ _ (record { stop = refl; wait = refl }))
Step-IsShrunk parse join {s} (stop_done now stops name) h = stop_one-IsShrunk now stops s name h
Step-IsShrunk parse join {s} done_checked h = Keeps-IsShrunk h (check_done-Keeps s (Keeps-self s))
Step-IsShrunk parse join {s} stop_all_begun h = record { still = refl; no_new_run = λ _ _ w. w }
Step-IsShrunk parse join {s} (process_ended now g name r result found waits) h =
    process_exit-IsShrunk now s name g result h
Step-IsShrunk parse join {s} (backoff_ended now g launch name) h =
    Keeps-IsShrunk h (backoff_passed-Keeps parse join now launch s name h g)
Step-IsShrunk parse join {s} (logged name line) h =
    Keeps-IsShrunk h (forward_log-Keeps s name line (Keeps-self s))
Step-IsShrunk parse join {s} idle_seen h =
    if_ind (λ (t : Sup × Bool × Option SupError). IsShrunk s t.0) s.idle
      (λ _. record { still = refl; no_new_run = λ _ _ w. w }) (λ _. Keeps-IsShrunk h (Keeps-self s))
Step-IsShrunk parse join {s} (run_ended now) h =
    let ended = emit_events (no_event supervisor_stopped [] now ∷ []) s in
    let k = emit_events-Keeps (no_event supervisor_stopped [] now ∷ []) s (Keeps-self s) in
    Keeps-IsShrunk h (
      if_ind (Keeps s.stopping s.waiting) ended.events_closed (λ _. k)
        (λ _. record { stop = k.stop; wait = k.wait }))

-- Once `stopping` is set, it stays set, and whatever sections follow, in any order, the supervisor
-- never waits for a run that it did not wait for at that time: no process is launched any more,
-- neither by a command nor by a restart whose backoff passes.
pub Reach-IsShrunk :
    (parse : ParseDuration) (join : Text → Text → Text) (s t : Sup)
    → s.stopping ≡ true
    → Reach parse join s t
    → IsShrunk s t
Reach-IsShrunk parse join s t h here = Keeps-IsShrunk h (Keeps-self s)
Reach-IsShrunk parse join s t h (then_step {t = u} reach step) =
    let before = Reach-IsShrunk parse join s u h reach in
    IsShrunk-trans before (Step-IsShrunk parse join step before.still)
