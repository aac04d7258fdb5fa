-- ===== src/Supervisor/Sections/Launching.antt =====
-- The launch of a process in internal/supervisor/supervisor.go.
use process_deck.Base.{
  ℕ, ◌+◌, ◌%◌, true, false, ◌||◌, List, [], ◌∷◌, ◌++◌, Option, none, some, if◌then◌else◌,
}
use process_deck.Base.Result.{Result, ok, err}
use process_deck.Base.Text.{Text}
use process_deck.LogBuf.{u64}
use process_deck.Config.Validate.{ParseDuration}
use process_deck.Runner.{Spec}
use process_deck.Supervisor.{
  starting, running, Event, process_started, SupError, supervisor_stopping, unknown_name,
  launch_failed, Runtime, Sup, runtime_of, with_runtime, emit_events, no_event,
}
use process_deck.Supervisor.Resolve.{process_spec}
use process_deck.Supervisor.Sections.States.{set_state, cancel_restart, mark_start_failed}

-- What the runner says of a launch: the PID, or why there is none.
abbrev pub Launch : Type 0
Launch = Spec → Result Text ℕ

-- What `runtime` is when the launch of the next generation begins.
unfoldable pub next_generation : ℕ → Runtime → Runtime × List Event
next_generation now r =
    let r1 = cancel_restart r in
    set_state now
      (record r1 {
        generation = (r1.generation + 1) % u64;
        stop_requested = false;
        exit_code = none;
      })
      starting

abbrev pub wake : Sup → Sup
wake s = if s.idle then record s { idle = false; done_closed = false } else s

-- The end of that section, with the runner if the process can be specified.
unfoldable pub record_start :
    Text → List Event → Runtime → Sup → Result SupError Spec → Sup × Result SupError Spec
record_start name changed r s (err e) = (emit_events changed (with_runtime name r s), err e)
record_start name changed r s (ok spec) = (
  emit_events changed
      (with_runtime name (record r { runner = some spec; finished = some false }) s),
  ok spec,
)

module _ (parse : ParseDuration) (join : Text → Text → Text) where
  -- The first section of `startProcess`, up to the call of the runner.
  unfoldable pub prepare_start : ℕ → Sup → Text → Sup × Result SupError Spec
  prepare_start now s name =
      if s.stopping || s.ctx_done
      then (s, err supervisor_stopping)
      else elim (runtime_of s.processes name) [
        | none ↦ (s, err (unknown_name name))
        | some r ↦
            let (r1, changed) = next_generation now r in
            record_start name changed r1 (wake s) (process_spec parse join s.cfg s.options r1)
      ]

-- The second section of `startProcess`, and the goroutines that it starts.
unfoldable pub finish_start : ℕ → ℕ → Sup → Text → Sup
finish_start now pid s name = elim (runtime_of s.processes name) [
  | none ↦ s
  | some r ↦
      let (r1, changed) =
        set_state now (record r { pid = pid; started_at = some now; reached_running = true })
          running in
      let started = record (no_event process_started name now) {
        state = some running;
        pid = pid;
      } in
      emit_events (changed ++ (started ∷ []))
        (record (with_runtime name r1 s) { waiting = (name, r.generation) ∷ s.waiting })
]

-- `startProcess` after the call of the runner.
unfoldable pub launched : ℕ → Text → Sup → Result Text ℕ → Sup × Option SupError
launched now name s (err message) = (s, some (launch_failed name message))
launched now name s (ok pid) = (finish_start now pid s name, none)

-- What `startProcess` does when its first section is over.
unfoldable pub launch_prepared :
    ℕ → Launch → Text → Sup × Result SupError Spec → Sup × Option SupError
launch_prepared now launch name (s, err e) = (s, some e)
launch_prepared now launch name (s, ok spec) = launched now name s (launch spec)

-- How every caller goes on when `startProcess` fails.
unfoldable pub fail_start : ℕ → Text → Sup × Option SupError → Sup × Option SupError
fail_start now name (s, none) = (s, none)
fail_start now name (s, some e) = (mark_start_failed now s name e, some e)

module _ (parse : ParseDuration) (join : Text → Text → Text) where
  unfoldable pub start_process : ℕ → Launch → Sup → Text → Sup × Option SupError
  start_process now launch s name =
      launch_prepared now launch name (prepare_start parse join now s name)

  -- `startProcess` and, when it fails, `markStartFailed`.
  unfoldable pub start_or_fail : ℕ → Launch → Sup → Text → Sup × Option SupError
  start_or_fail now launch s name = fail_start now name (start_process now launch s name)
