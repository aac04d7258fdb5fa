-- ===== src/Supervisor/Sections/States.antt =====
-- The small sections of internal/supervisor/supervisor.go: the state of a process, whether all are
-- done, whether dependencies are ready, and a process that is not launched.
use process_deck.Base.{
  ℕ, Bool, true, false, not, ◌&&◌, ◌||◌, List, [], ◌∷◌, ◌++◌, Option, none, some, if◌then◌else◌,
}
use process_deck.Base.Int.{pos}
use process_deck.Base.Text.{Text}
use process_deck.Graph.{deps_of}
use process_deck.Supervisor.{
  State, failed, skipped, terminal_state, same_state, Event, state_changed, process_skipped,
  supervisor_error, SupError, Runtime, Sup, runtime_of, with_runtime, emit_events, no_event,
}

-- `setStateLocked`: the change and, if there is one, the event of it.
unfoldable pub set_state : ℕ → Runtime → State → Runtime × List Event
set_state now r state = if same_state r.state state then (r, []) else (
  record r { state = state },
  record (no_event state_changed r.name now) {
    state = some state;
    pid = r.pid;
    restarts = r.restarts;
    exit_code = r.exit_code;
  }
      ∷ [],
)

-- `cancelRestartLocked`
unfoldable pub cancel_restart : Runtime → Runtime
cancel_restart r = elim r.restart_cancel [
  | none ↦ record r { restarting = false }
  | some g ↦ record r { restarting = false; restart_cancel = none; cancelled = g ∷ r.cancelled }
]

-- The loop of `checkDoneLocked`.
unfoldable pub all_done : List (Text × Runtime) → Bool
all_done [] = true
all_done ((name, r) ∷ rest) = not (r.restarting || not (terminal_state r.state)) && all_done rest

-- `checkDoneLocked`
unfoldable pub check_done : Sup → Sup
check_done s =
    if not (all_done s.processes)
    then s
    else if s.idle
    then s
    else record s { idle = true; done_closed = true }

-- The loop of `dependenciesReadyLocked`.
unfoldable pub ready_all : List (Text × Runtime) → List Text → Bool
ready_all processes [] = true
ready_all processes (dep ∷ deps) = elim (runtime_of processes dep) [
  | none ↦ false
  | some r ↦
      if not r.reached_running || same_state r.state skipped
      then false
      else ready_all processes deps
]

unfoldable pub dependencies_ready : Sup → Text → Bool
dependencies_ready s name = ready_all s.processes (deps_of s.deps name)

-- `skipProcess`
unfoldable pub skip_process : ℕ → Sup → Text → Sup
skip_process now s name = elim (runtime_of s.processes name) [
  | none ↦ s
  | some r ↦
      let (r', changed) = set_state now r skipped in
      let skip = record (no_event process_skipped name now) { state = some skipped } in
      emit_events (changed ++ (skip ∷ [])) (record (with_runtime name r' s) { had_failed = true })
]

-- `markStartFailed`
unfoldable pub mark_start_failed : ℕ → Sup → Text → SupError → Sup
mark_start_failed now s name error = elim (runtime_of s.processes name) [
  | none ↦ s
  | some r ↦
      let closed : Option Bool = elim r.runner [
        | none ↦ r.finished
        | some spec ↦ elim r.finished [ none ↦ none | some channel ↦ some true ]
      ] in
      let r1 = record r {
        exit_code = some (pos 1);
        pid = 0;
        finished = closed;
        runner = none;
        restarting = false;
        stop_requested = false;
      } in
      let (r2, changed) = set_state now r1 failed in
      let failure = record (no_event supervisor_error name now) {
        state = some failed;
        error = some error;
      } in
      emit_events (changed ++ (failure ∷ []))
        (check_done (record (with_runtime name r2 s) { had_failed = true }))
]
