-- ===== src/Supervisor/Lifecycle.antt =====
-- `Run` of internal/supervisor/supervisor.go in its sections, and what a client reads of the state.
use process_deck.Base.{
  ℕ, ◌==◌, Bool, true, false, not, List, [], ◌∷◌, Option, none, some, if◌then◌else◌,
}
use process_deck.Base.Int.{ℤ}
use process_deck.Base.Result.{ok, err}
use process_deck.Base.Text.{Text}
use process_deck.LogBuf
use process_deck.LogBuf.{Batch}
use process_deck.Graph.{sorted_keys, startup_layers, flatten}
use process_deck.Config.Validate.{ParseDuration}
use process_deck.Supervisor.{
  State, supervisor_stopped, SupError, already_run, some_failed, graph, Runtime, Sup, runtime_of,
  emit_events, no_event, LogEntry,
}
use process_deck.Supervisor.Resolve.{command_text}
use process_deck.Supervisor.Sections.{
  check_done, dependencies_ready, skip_process, Launch, start_or_fail,
}

-- The first section of `Run`.
unfoldable pub run_begin : Sup → Sup × Option SupError
run_begin s = if s.run_ctx then (s, some already_run) else (record s { run_ctx = true }, none)

module _ (parse : ParseDuration) (join : Text → Text → Text) where
  -- The loops of `startInitial` over the names of all layers in turn; whether they ran to the end.
  unfoldable pub start_names : ℕ → Launch → Sup → List Text → Sup × Bool
  start_names now launch s [] = (s, true)
  start_names now launch s (name ∷ names) =
      let s1 =
        if not (dependencies_ready s name)
        then skip_process now s name
        else (start_or_fail parse join now launch s name).0 in
      let rest = start_names now launch s1 names in if s.ctx_done then (s, false) else rest

  unfoldable pub start_initial : ℕ → Launch → Sup → Sup × Option SupError
  start_initial now launch s = elim (startup_layers s.deps) [
    | err e ↦ (s, some (graph e))
    | ok layers ↦
        let (s1, whole) = start_names now launch s (flatten layers) in
        (if whole then check_done s1 else s1, none)
  ]

-- The section of `Run` after `done` was closed: whether it ends, and with what error.
unfoldable pub run_done : Sup → Sup × Bool × Option SupError
run_done s =
    if s.idle
    then (record s { stopping = true }, true, if s.had_failed then some some_failed else none)
    else (s, false, none)

-- `closeEvents`
unfoldable pub close_events : Sup → Sup
close_events s = if s.events_closed then s else record s { events_closed = true }

-- The end of `Run`, when no goroutine is left: `emitStopped` and `closeEvents`.
unfoldable pub run_end : ℕ → Sup → Sup
run_end now s = close_events (emit_events (no_event supervisor_stopped [] now ∷ []) s)

pub record Snapshot : Type 0 where
  pub name : Text
  pub state : State
  pub pid : ℕ
  pub restarts : ℕ
  pub exit_code : Option ℤ
  pub started_at : Option ℕ
  pub command : Text

unfoldable pub snapshot_of : Text → Runtime → Snapshot
snapshot_of name r = record {
  name = name;
  state = r.state;
  pid = r.pid;
  restarts = r.restarts;
  exit_code = r.exit_code;
  started_at = r.started_at;
  command = command_text r.config;
}

unfoldable pub snapshots_of : List (Text × Runtime) → List Text → List Snapshot
snapshots_of processes [] = []
snapshots_of processes (name ∷ names) = elim (runtime_of processes name) [
  | none ↦ snapshots_of processes names
  | some r ↦ snapshot_of name r ∷ snapshots_of processes names
]

-- `Snapshot`
unfoldable pub snapshot : Sup → List Snapshot
snapshot s = snapshots_of s.processes (sorted_keys s.deps)

-- `Logs`
unfoldable pub logs : Sup → Text → List LogEntry
logs s name = elim (runtime_of s.processes name) [
  | none ↦ []
  | some r ↦ LogBuf.retained_items r.logs
]

-- `LogsSince`
unfoldable pub logs_since : Sup → Text → ℕ → Batch LogEntry
logs_since s name cursor = elim (runtime_of s.processes name) [
  | none ↦ record { entries = []; next = 0; retained = 0; reset = not (cursor == 0) }
  | some r ↦ LogBuf.items_since r.logs cursor
]
