-- ===== src/Supervisor/Sections.antt =====
-- The critical sections of internal/supervisor/supervisor.go that concern one process: its launch,
-- its end, the restart after a backoff, its output. `now` is what the clock reads in the section.
mod States
mod Launching
use process_deck.Base.{
  ℕ, ◌+◌, ◌%◌, ◌==◌, Bool, true, false, not, ◌&&◌, ◌||◌, List, [], ◌∷◌, ◌++◌, Option, none, some,
  if◌then◌else◌,
}
use process_deck.Base.Int.{pos, is_zero}
use process_deck.Base.Result.{Result, ok, err}
use process_deck.Base.Text.{Text, same}
use process_deck.LogBuf
use process_deck.LogBuf.{Ring, u64}
use process_deck.Graph.{deps_of}
use process_deck.Config.Validate.{ParseDuration}
use process_deck.Runner.{Spec, ExitResult, LogLine}
use process_deck.Supervisor.{
  State, pending, starting, running, exited, failed, skipped, terminal_state, same_state, Event,
  state_changed, process_started, process_exited, restart_scheduled, log_line, process_skipped,
  supervisor_error, SupError, supervisor_stopping, unknown_name, launch_failed, exit_failure,
  supervision_failure, Runtime, Sup, runtime_of, with_runtime, emit_events, no_event,
}
use process_deck.Supervisor.Resolve.{process_spec, should_restart, resolve_restart}
unfoldable pub use States.{
  set_state, cancel_restart, all_done, check_done, ready_all, dependencies_ready, skip_process,
  mark_start_failed,
}
unfoldable pub use Launching.{
  next_generation, record_start, prepare_start, finish_start, launched, launch_prepared, fail_start,
  start_process, start_or_fail,
}
pub use Launching.{Launch, wake}

abbrev pub remove : Text → ℕ → List (Text × ℕ) → List (Text × ℕ)
remove name g [] = []
remove name g ((n, h) ∷ rest) =
    let left = remove name g rest in if same n name && g == h then rest else (n, h) ∷ left

unfoldable pub is_some {ℓ} : {A : Type ℓ} → Option A → Bool
is_some none = false
is_some (some a) = true

-- The state in which a process ends.
unfoldable pub exit_state : Runtime → ExitResult → State
exit_state r result =
    if not r.stop_requested
      && (not (is_zero result.exit_code) || is_some result.supervision_failure)
    then failed
    else exited

-- Whether an ended process is launched again.
unfoldable pub wants_restart : Sup → Runtime → ExitResult → Bool
wants_restart s r result =
    not s.stopping
    && not r.stop_requested
    && not (is_some result.supervision_failure)
    && should_restart (resolve_restart s.cfg.defaults r.config) result.exit_code

unfoldable pub exit_events : ℕ → Text → State → ExitResult → List Event
exit_events now name state result =
    record (no_event process_exited name now) {
      state = some state;
      exit_code = some result.exit_code;
      error = elim result.failure [ none ↦ none | some e ↦ some (exit_failure e) ];
    }
    ∷ elim result.supervision_failure [
      | none ↦ []
      | some e ↦
          record (no_event supervisor_error name now) { error = some (supervision_failure e) } ∷ []
    ]

-- The restart is scheduled: what the last part of the section of `waitProcess` writes.
unfoldable pub schedule_restart : ℕ → ℕ → Runtime → Runtime × List Event
schedule_restart now g r =
    let (r', changed) =
      set_state now
        (record r {
          restarts = r.restarts + 1;
          restarting = true;
          exit_code = none;
          restart_cancel = some g;
        })
        pending in
    (
      record r' { finished = some true },
      changed
          ++ (record (no_event restart_scheduled r.name now) {
            state = some pending;
            restarts = r.restarts + 1;
          }
              ∷ []),
    )

-- The section of `waitProcess` after the process has ended and its output is drained.
unfoldable pub process_exit : ℕ → Sup → Text → ℕ → ExitResult → Sup
process_exit now s name g result =
    let s0 = record s { waiting = remove name g s.waiting } in
    elim (runtime_of s.processes name) [
      | none ↦ s0
      | some r ↦
          if not (r.generation == g)
          then s0
          else let state = exit_state r result in
            let restart = wants_restart s r result in
            let (r1, changed) =
              set_state now (record r { pid = 0; exit_code = some result.exit_code; runner = none })
                state in
            let failing =
              (same_state state failed && not restart) || is_some result.supervision_failure in
            let s1 = record s0 { had_failed = s0.had_failed || failing } in
            let ended = changed ++ exit_events now name state result in
            if restart
            then (let (r2, scheduled) = schedule_restart now g r1 in
                emit_events (ended ++ scheduled)
                  (record (with_runtime name r2 s1) { backing_off = (name, g) ∷ s1.backing_off }))
            else emit_events ended
                (check_done (with_runtime name (record r1 { finished = some true }) s1))
    ]

unfoldable pub has_generation : List ℕ → ℕ → Bool
has_generation [] g = false
has_generation (h ∷ hs) g = g == h || has_generation hs g

-- Whether a restart is still wanted when its backoff has passed.
unfoldable pub restart_valid : Sup → Runtime → ℕ → Bool
restart_valid s r g =
    not (has_generation r.cancelled g)
    && not s.ctx_done
    && not s.stopping
    && r.generation == g
    && r.restarting
    && not r.stop_requested

module _ (parse : ParseDuration) (join : Text → Text → Text) where
  -- The section of `waitProcess` after the timer.
  unfoldable pub backoff_passed : ℕ → Launch → Sup → Text → ℕ → Sup
  backoff_passed now launch s name g =
      let s0 = record s { backing_off = remove name g s.backing_off } in
      elim (runtime_of s.processes name) [
        | none ↦ s0
        | some r ↦
            if restart_valid s r g then (start_or_fail parse join now launch s0 name).0 else s0
      ]

-- One round of `forwardLogs`.
unfoldable pub forward_log : Sup → Text → LogLine → Sup
forward_log s name line = elim (runtime_of s.processes name) [
  | none ↦ s
  | some r ↦
      let logs =
        LogBuf.add r.logs (record { stream = line.stream; line = line.line; time = line.time }) in
      let (revision, count) = LogBuf.state logs in
      emit_events
        (record (no_event log_line name line.time) {
          stream = line.stream;
          line = line.line;
          log_cursor = revision;
          log_retained = count;
          log_state_valid = true;
        }
          ∷ [])
        (with_runtime name (record r { logs = logs }) s)
]
