-- ===== src/Supervisor/Commands.antt =====
-- The commands of internal/supervisor/supervisor.go, each run with `opsMu` held, so one at a time,
-- and what a client reads. What the runners answer is an argument: `launch` for a start, `stops` for
-- `runner.Stop()` and the result that the ended process leaves.
mod Select
use process_deck.Base.{
  ℕ, zero, suc, Bool, true, false, not, ◌&&◌, ◌||◌, List, [], ◌∷◌, ◌++◌, Option, none, some,
  if◌then◌else◌, length,
}
use process_deck.Base.Result.{Result, ok, err}
use process_deck.Base.Text.{Text, same, member}
use process_deck.LogBuf
use process_deck.LogBuf.{Ring, Batch}
use process_deck.Graph.{
  Deps, no_fuel, keys, dependents_of, reverse_dependency_order, validate_graph,
}
use process_deck.Config.{Config, Process, dependency_map, process_names}
use process_deck.Config.Validate.{ParseDuration, process_of}
use process_deck.Runner.{ExitResult}
use process_deck.Supervisor.{
  pending, stopping, exited, terminal_state, same_state, Event, supervisor_error, SupError,
  not_running, supervisor_stopping, context_done, unknown_name, deps_not_ready, already,
  stop_failed, graph, Runtime, Sup, Options, runtime_of, write_runtime, with_runtime, emit_events,
  no_event,
}
use process_deck.Supervisor.Resolve.{resolve_log_buffer_lines}
use process_deck.Supervisor.Sections.{
  set_state, cancel_restart, check_done, dependencies_ready, Launch, start_or_fail, process_exit,
}
unfoldable pub use Select.{select_all, select, keep_selected, stop_order}

unfoldable pub fresh_runtime : Config → Text → Process → Runtime
fresh_runtime cfg name process = record {
  name = name;
  config = process;
  state = pending;
  pid = 0;
  restarts = 0;
  exit_code = none;
  started_at = none;
  reached_running = false;
  stop_requested = false;
  restarting = false;
  runner = none;
  generation = 0;
  restart_cancel = none;
  cancelled = [];
  finished = none;
  logs = LogBuf.new (resolve_log_buffer_lines cfg.defaults process);
}

unfoldable pub fresh_runtimes : Config → List Text → List (Text × Runtime)
fresh_runtimes cfg [] = []
fresh_runtimes cfg (name ∷ names) = elim (process_of cfg.processes name) [
  | none ↦ fresh_runtimes cfg names
  | some process ↦ (name, fresh_runtime cfg name process) ∷ fresh_runtimes cfg names
]

-- `New`
unfoldable pub new : Config → Options → Result SupError Sup
new cfg options = elim (validate_graph (dependency_map cfg)) [
  | err e ↦ err (graph e)
  | ok _ ↦ ok (record {
    cfg = cfg;
    options = options;
    deps = dependency_map cfg;
    run_ctx = false;
    ctx_done = false;
    processes = fresh_runtimes cfg (process_names cfg);
    events = [];
    done_closed = false;
    idle = false;
    events_closed = false;
    stopping = false;
    had_failed = false;
    waiting = [];
    backing_off = [];
  })
]

-- `commandContext`
unfoldable pub command_context : Sup → Option SupError
command_context s =
    if not s.run_ctx
    then some not_running
    else if s.stopping
    then some supervisor_stopping
    else if s.ctx_done
    then some context_done
    else none

-- Whether `startManual` finds the process launched or about to be.
unfoldable pub is_busy : Runtime → Bool
is_busy r = elim r.runner [
  | some spec ↦ true
  | none ↦ not (terminal_state r.state) && not (same_state r.state pending)
]

module _ (parse : ParseDuration) (join : Text → Text → Text) where
  -- `startManual`. The wait for the previous run's exit changes nothing here.
  unfoldable pub start_manual : ℕ → Launch → Sup → Text → Sup × Option SupError
  start_manual now launch s name = elim (command_context s) [
    | some e ↦ (s, some e)
    | none ↦ elim (runtime_of s.processes name) [
      | none ↦ (s, some (unknown_name name))
      | some r ↦
          if is_busy r
          then (s, some (already name r.state))
          else if not (dependencies_ready s name)
          then (s, some (deps_not_ready name))
          else start_or_fail parse join now launch
              (with_runtime name (record (cancel_restart r) { reached_running = false }) s) name
    ]
  ]

-- What the first loop of `stopProcesses` does to one process.
unfoldable pub request_stop : ℕ → Runtime → Runtime × List Event
request_stop now r =
    let r1 = cancel_restart (record r { stop_requested = true; reached_running = false }) in
    elim r1.runner [
      | some spec ↦ (r1, [])
      | none ↦ if terminal_state r1.state then (r1, []) else set_state now r1 exited
    ]

unfoldable pub request_stops :
    ℕ → List (Text × Runtime) → List Text → List (Text × Runtime) × List Event
request_stops now processes [] = (processes, [])
request_stops now processes (name ∷ order) = elim (runtime_of processes name) [
  | none ↦ request_stops now processes order
  | some r ↦
      let (r', changed) = request_stop now r in
      let (after, events) = request_stops now (write_runtime name r' processes) order in
      (after, changed ++ events)
]

-- What `runner.Stop()` of a process answers: why it failed, or how the process ended.
abbrev pub Stops : Type 0
Stops = Text → Result Text ExitResult

-- After `runner.Stop()` of one process. Once the process is stopped, its goroutine has its section,
-- which closes `finished`.
unfoldable pub stop_answer : ℕ → Sup → Text → ℕ → Result Text ExitResult → Sup × List SupError
stop_answer now s name g (err message) =
    let e = stop_failed name message in
    (emit_events (record (no_event supervisor_error name now) { error = some e } ∷ []) s, e ∷ [])
stop_answer now s name g (ok result) = (process_exit now s name g result, [])

-- One round of the second loop of `stopProcesses`.
unfoldable pub stop_one : ℕ → Stops → Sup → Text → Sup × List SupError
stop_one now stops s name = elim (runtime_of s.processes name) [
  | none ↦ (s, [])
  | some r ↦ elim r.runner [
    | none ↦ (s, [])
    | some spec ↦
        let (r', changed) = set_state now r stopping in
        let s1 = emit_events changed (with_runtime name r' s) in
        stop_answer now s1 name r.generation (stops name)
  ]
]

unfoldable pub stop_each : ℕ → Stops → Sup → List Text → Sup × List SupError
stop_each now stops s [] = (s, [])
stop_each now stops s (name ∷ order) =
    let (s1, errors) = stop_one now stops s name in
    let (s2, more) = stop_each now stops s1 order in (s2, errors ++ more)

-- `stopProcesses`, with the errors that it joins.
unfoldable pub stop_processes : ℕ → Stops → Sup → List Text → Sup × List SupError
stop_processes now stops s order =
    let (processes, events) = request_stops now s.processes order in
    let s1 = emit_events events (record s { processes = processes }) in
    let (s2, errors) = stop_each now stops s1 order in (check_done s2, errors)

-- `StopProcess`
unfoldable pub stop_process : ℕ → Stops → Sup → Text → Sup × List SupError
stop_process now stops s name = elim (stop_order s.deps name) [
  | err e ↦ (s, e ∷ [])
  | ok order ↦ stop_processes now stops s order
]

-- `StopAll`
unfoldable pub stop_all : ℕ → Stops → Sup → Sup × List SupError
stop_all now stops s =
    let s1 = record s { stopping = true } in
    elim (reverse_dependency_order s.deps) [
      | err e ↦ (s1, graph e ∷ [])
      | ok order ↦ stop_processes now stops s1 order
    ]

-- The dependents that `RestartProcess` starts again, and the process itself.
unfoldable pub resumes : List (Text × Runtime) → Text → Text → Bool
resumes processes name dependent = same name dependent || elim (runtime_of processes dependent) [
  | none ↦ false
  | some r ↦ elim r.runner [ some spec ↦ true | none ↦ r.restarting || same_state r.state pending ]
]

-- The names of the stop order that are resumed, from its end.
abbrev pub resumed : List (Text × Runtime) → Text → List Text → List Text
resumed processes name [] = []
resumed processes name (n ∷ order) =
    resumed processes name order ++ (if resumes processes name n then n ∷ [] else [])

module _ (parse : ParseDuration) (join : Text → Text → Text) where
  unfoldable pub start_each : ℕ → Launch → Sup → List Text → Sup × List SupError
  start_each now launch s [] = (s, [])
  start_each now launch s (name ∷ names) =
      let (s1, failure) = start_manual parse join now launch s name in
      let (s2, more) = start_each now launch s1 names in
      (s2, elim failure [ none ↦ more | some e ↦ e ∷ more ])

  -- The starts that follow when the stops had no error.
  unfoldable pub resume_after : ℕ → Launch → List Text → Sup × List SupError → Sup × List SupError
  resume_after now launch names (s, e ∷ more) = (s, e ∷ more)
  resume_after now launch names (s, []) = start_each now launch s names

  -- `RestartProcess`
  unfoldable pub restart_process : ℕ → Launch → Stops → Sup → Text → Sup × List SupError
  restart_process now launch stops s name = elim (command_context s) [
    | some e ↦ (s, e ∷ [])
    | none ↦ elim (stop_order s.deps name) [
      | err e ↦ (s, e ∷ [])
      | ok order ↦
          resume_after now launch (resumed s.processes name order)
            (stop_processes now stops s order)
    ]
  ]
