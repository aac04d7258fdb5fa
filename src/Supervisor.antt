-- ===== src/Supervisor.antt =====
-- internal/supervisor: the state of the supervisor (supervisor.go, state.go, events.go). Each critical
-- section of the source is one function on the state; the children have them.
pub mod Resolve
pub mod Sections
pub mod Commands
pub mod Lifecycle
pub mod Inv
pub mod Steps
pub mod StopOrder
pub mod Stopping
pub mod Tests
use process_deck.Base.{
  ℕ, ◌+◌, ◌%◌, ◌==◌, Bool, true, false, not, ◌||◌, List, [], ◌∷◌, ◌++◌, Option, none, some,
  if◌then◌else◌, ◌≡◌, refl, arith,
}
use process_deck.Base.Int.{ℤ}
use process_deck.Base.Text.{Text, same}
use process_deck.LogBuf.{Ring}
use process_deck.Graph.{Deps, GraphError}
use process_deck.Config.{Config, Process}
use process_deck.Runner.{Spec}

pub data State : Type 0 where
  pending starting running stopping exited failed skipped : State

unfoldable pub terminal_state : State → Bool
terminal_state exited = true
terminal_state failed = true
terminal_state skipped = true
terminal_state _ = false

-- Go compares the strings behind the states, which differ.
state_code : State → ℕ
state_code pending = 0
state_code starting = 1
state_code running = 2
state_code stopping = 3
state_code exited = 4
state_code failed = 5
state_code skipped = 6

unfoldable pub same_state : State → State → Bool
unfolding state_code
same_state a b = state_code a == state_code b

pub data EventKind : Type 0 where
  state_changed process_started process_exited restart_scheduled : EventKind
  log_line process_skipped supervisor_error supervisor_stopped : EventKind

pub data SupError : Type 0 where
  already_run not_running supervisor_stopping context_done some_failed : SupError
  unknown_name deps_not_ready : Text → SupError
  already : Text → State → SupError
  bad_spec launch_failed stop_failed start_failed : Text → Text → SupError
  exit_failure supervision_failure : Text → SupError
  graph : GraphError → SupError

pub record Event : Type 0 where
  pub kind : EventKind
  pub process : Text
  pub stream : Text
  pub line : Text
  pub log_cursor : ℕ
  pub log_retained : ℕ
  pub log_state_valid : Bool
  pub state : Option State
  pub pid : ℕ
  pub restarts : ℕ
  pub exit_code : Option ℤ
  pub error : Option SupError
  pub time : ℕ

pub record LogEntry : Type 0 where
  pub stream : Text
  pub line : Text
  pub time : ℕ

-- `processRuntime`. A channel or a cancel function that has not been made is `none`.
pub record Runtime : Type 0 where
  pub name : Text
  pub config : Process
  pub state : State
  pub pid : ℕ
  -- An `int` that counts restarts. It would take 2 ^ 63 of them to wrap.
  pub restarts : ℕ
  pub exit_code : Option ℤ
  pub started_at : Option ℕ
  pub reached_running : Bool
  pub stop_requested : Bool
  pub restarting : Bool
  pub runner : Option Spec
  pub generation : ℕ
  -- The restart that can still be cancelled, by the generation that it was scheduled for.
  pub restart_cancel : Option ℕ
  -- The restarts that were cancelled.
  pub cancelled : List ℕ
  -- Whether the channel is closed.
  pub finished : Option Bool
  pub logs : Ring LogEntry

pub record Options : Type 0 where
  pub base_dir : Text
  pub keep_running_when_done : Bool

-- `Supervisor`, with the context that `Run` is given, the events sent so far and the goroutines that
-- wait for a process to end or for a backoff to pass.
pub record Sup : Type 0 where
  pub cfg : Config
  pub options : Options
  pub deps : Deps
  pub run_ctx : Bool
  pub ctx_done : Bool
  pub processes : List (Text × Runtime)
  pub events : List Event
  pub done_closed : Bool
  pub idle : Bool
  pub events_closed : Bool
  pub stopping : Bool
  pub had_failed : Bool
  pub waiting : List (Text × ℕ)
  pub backing_off : List (Text × ℕ)

-- `s.processes[name]`
unfoldable pub runtime_of : List (Text × Runtime) → Text → Option Runtime
unfolding same
runtime_of [] name = none
runtime_of ((key, r) ∷ rest) name = if same key name then some r else runtime_of rest name

-- Writes through the pointer that the map holds.
unfoldable pub write_runtime : Text → Runtime → List (Text × Runtime) → List (Text × Runtime)
unfolding same
write_runtime name r [] = []
write_runtime name r ((key, old) ∷ rest) =
    if same key name then (key, r) ∷ rest else (key, old) ∷ write_runtime name r rest

abbrev pub with_runtime : Text → Runtime → Sup → Sup
with_runtime name r s = record s { processes = write_runtime name r s.processes }

-- `emitEvents`: nothing is sent on a closed channel.
unfoldable pub emit_events : List Event → Sup → Sup
emit_events events s = if s.events_closed then s else record s { events = s.events ++ events }

abbrev pub no_event : EventKind → Text → ℕ → Event
no_event kind name now = record {
  kind = kind;
  process = name;
  stream = [];
  line = [];
  log_cursor = 0;
  log_retained = 0;
  log_state_valid = false;
  state = none;
  pid = 0;
  restarts = 0;
  exit_code = none;
  error = none;
  time = now;
}

pub same_state_eq : (a b : State) → same_state a b ≡ true → a ≡ b
unfolding same_state
same_state_eq pending b h = ground arith
same_state_eq _ b h = ground arith

pub same_state_self : (a : State) → same_state a a ≡ true
unfolding same_state
same_state_self pending = refl
same_state_self _ = refl
