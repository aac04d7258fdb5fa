-- ===== src/Supervisor/Tests.antt =====
-- Runs of the supervisor, and of the theorems about it.
pub mod Deck
use process_deck.Base.{◌≡◌, refl, sym, subst, List, [], ◌∷◌, ◌++◌, true, false, none, some}
use process_deck.Base.Int.{pos}
use process_deck.Base.Result.{ok}
use process_deck.Base.Text.{Text, codes, same}
use process_deck.LogBuf
use process_deck.Graph.{validate_graph}
use process_deck.Config.{Config, Process, dependency_map, process_names}
use process_deck.Config.Validate.{ParseDuration, process_of}
use process_deck.Runner.{Spec, ExitResult, parse_signal, term}
use process_deck.Supervisor.{
  running, exited, pending, Options, Runtime, Sup, runtime_of, write_runtime, emit_events,
  same_state,
}
use process_deck.Supervisor.Resolve.{
  process_spec, resolve_stop_signal, resolve_stop_timeout, resolve_pty, resolve_cwd,
  resolve_log_buffer_lines,
}
use process_deck.Supervisor.Sections.{
  set_state, cancel_restart, Launch, next_generation, record_start, prepare_start, finish_start,
  launched, launch_prepared, fail_start, start_process, start_or_fail, is_some, process_exit,
  has_generation,
}
use process_deck.Supervisor.Commands.{
  fresh_runtime, fresh_runtimes, new, Stops, start_manual, stop_process, stop_all,
}
use process_deck.Supervisor.Inv.{IsValid, waiters_of}
use process_deck.Supervisor.Steps.{
  started, start_commanded, process_ended, Reach, here, then_step, Reach-IsValid,
}
use process_deck.Supervisor.Steps.Shutdown.{IsShrunk, Reach-IsShrunk}
use process_deck.Config.Validate.{
  validate, validate_defaults, validate_restart, validate_duration, validate_stop_signal,
  validate_log_lines, validate_process,
}
use process_deck.Supervisor.Resolve.Validated.{process_spec-of_valid}
use process_deck.Base.{◌↔◌, ◌⊎◌}
use process_deck.Graph.{keys}
use process_deck.Graph.Checks.{NoRepeats}
use process_deck.Base.Text.{member}
use process_deck.Graph.Acyclic.{Follows}
use process_deck.Supervisor.Commands.{stop_order}
use process_deck.Supervisor.StopOrder.{stop_order_iff}
use process_deck.Supervisor.{terminal_state}
use process_deck.Supervisor.Sections.{exit_state, all_done, check_done, wants_restart}
use process_deck.Supervisor.Commands.{
  request_stop, request_stops, stop_answer, stop_one, stop_each, stop_processes, select, select_all,
  keep_selected,
}
use process_deck.Graph.{dependents_of, reverse_dependency_order, startup_layers}
use process_deck.Base.{inl}
use process_deck.Supervisor.Stopping.{stop_process-ended, stop_all-ended}
use process_deck.Supervisor.Tests.Deck.{
  plain, shop, here_dir, no_durations, joined, launch, clean, fresh, made,
}

made_run : new shop here_dir ≡ ok made
unfolding new validate_graph dependency_map fresh_runtimes fresh_runtime process_of process_names
    resolve_log_buffer_lines LogBuf.new
made_run = refl

abbrev launched_db : Sup
launched_db = (start_or_fail no_durations joined 5 launch made (codes "db")).0

abbrev db_running : Runtime
db_running = record (fresh (codes "db") (plain (codes "store") [])) {
  state = running;
  pid = 71;
  started_at = some 5;
  reached_running = true;
  runner = some (record {
    name = codes "db";
    cmd = codes "store";
    exec = [];
    cwd = codes "/srv";
    env_files = [];
    env = [];
    stop_signal = term;
    stop_timeout = pos 10000000000;
    pty = false;
  });
  generation = 1;
  finished = some false;
}

launched_db_run :
    (runtime_of launched_db.processes (codes "db") ≡ some db_running)
    × (launched_db.waiting ≡ (codes "db", 1) ∷ [])
unfolding start_or_fail start_process prepare_start next_generation cancel_restart set_state
    same_state record_start process_spec resolve_stop_signal resolve_stop_timeout resolve_pty
    resolve_cwd parse_signal launch_prepared launched finish_start fail_start emit_events runtime_of
    write_runtime
launched_db_run = (refl, refl)

-- The database is launched, and ends by itself.
abbrev ended_db : Sup
ended_db = process_exit 9 launched_db (codes "db") 1 clean

to_launched : Reach no_durations joined made launched_db
unfolding runtime_of is_some
to_launched =
    then_step here
      (started 5 launch (codes "db") (fresh (codes "db") (plain (codes "store") [])) refl refl)

to_ended : Reach no_durations joined made ended_db
unfolding has_generation same
to_ended = then_step to_launched (
    process_ended 9 1 (codes "db") db_running clean launched_db_run.0 (
      subst (λ w. has_generation (waiters_of (codes "db") w) 1 ≡ true) (sym launched_db_run.1)
        refl))

Reach-IsValid_example : IsValid ended_db
Reach-IsValid_example =
    Reach-IsValid no_durations joined shop here_dir made ended_db made_run to_ended

abbrev shut : Sup
shut = record launched_db { stopping = true }

-- A start is asked for while the supervisor is stopping.
abbrev after_start : Sup
after_start = (start_manual no_durations joined 7 launch shut (codes "web")).0

Reach-IsShrunk_example : IsShrunk shut after_start
Reach-IsShrunk_example =
    Reach-IsShrunk no_durations joined shut after_start refl
      (then_step here (start_commanded 7 launch (codes "web")))

abbrev stops : Stops
stops name = ok clean

valid_run : validate no_durations shop ≡ ok tt
unfolding validate validate_defaults validate_restart validate_duration validate_stop_signal
    validate_log_lines validate_process
valid_run = refl

db_of_shop : process_of shop.processes (codes "db") ≡ some (plain (codes "store") [])
unfolding process_of
db_of_shop = refl

process_spec-of_valid_example :
    (spec : Spec) × (process_spec no_durations joined shop here_dir
        (fresh (codes "db") (plain (codes "store") []))
      ≡ ok spec)
process_spec-of_valid_example =
    process_spec-of_valid no_durations joined shop here_dir (codes "db")
      (fresh (codes "db") (plain (codes "store") [])) valid_run db_of_shop

made_accepted : validate_graph made.deps ≡ ok tt
unfolding validate_graph
made_accepted = refl

made_once : NoRepeats (keys made.deps)
unfolding keys member same
made_once = (refl, (refl, tt))

db_known : member (codes "db") (keys made.deps) ≡ true
unfolding keys member same
db_known = refl

stop_order_iff_example :
    (order : List Text) × (stop_order made.deps (codes "db") ≡ ok order)
    × ((x : Text) → (member x order ≡ true) ↔ ((x ≡ codes "db") ⊎ Follows made.deps x (codes "db")))
stop_order_iff_example = stop_order_iff made.deps (codes "db") made_accepted made_once db_known

-- The database runs, and its client waits to be launched.
abbrev up : Sup
up = record made {
  processes =
      (codes "db", db_running)
      ∷ (codes "web", fresh (codes "web") (plain (codes "serve") (codes "db" ∷ [])))
      ∷ [];
  waiting = (codes "db", 1) ∷ [];
}

abbrev db_stopped : Runtime
db_stopped = record db_running {
  state = exited;
  pid = 0;
  exit_code = some (pos 0);
  reached_running = false;
  stop_requested = true;
  runner = none;
  finished = some true;
}

db_stopped_run :
    runtime_of (stop_process 8 stops up (codes "db")).0.processes (codes "db") ≡ some db_stopped
unfolding stop_process stop_order stop_processes request_stops request_stop cancel_restart stop_each
    stop_one stop_answer process_exit exit_state wants_restart set_state same_state terminal_state
    check_done all_done emit_events runtime_of write_runtime select select_all keep_selected
    dependents_of reverse_dependency_order startup_layers validate_graph keys member is_some
db_stopped_run = refl

all_stopped_run : runtime_of (stop_all 8 stops up).0.processes (codes "db") ≡ some db_stopped
unfolding stop_all stop_processes request_stops request_stop cancel_restart stop_each stop_one
    stop_answer process_exit exit_state wants_restart set_state same_state terminal_state check_done
    all_done emit_events runtime_of write_runtime reverse_dependency_order startup_layers
    validate_graph is_some
all_stopped_run = refl

stop_process-ended_example :
    (is_some db_stopped.runner ≡ false)
    × (terminal_state db_stopped.state ≡ true)
    × (db_stopped.restarting ≡ false)
stop_process-ended_example =
    stop_process-ended 8 stops (λ name. (clean, refl)) up (codes "db") (codes "db") db_stopped
      made_accepted made_once db_known (inl refl) db_stopped_run

stop_all-ended_example :
    (is_some db_stopped.runner ≡ false)
    × (terminal_state db_stopped.state ≡ true)
    × (db_stopped.restarting ≡ false)
stop_all-ended_example =
    stop_all-ended 8 stops (λ name. (clean, refl)) up (codes "db") db_stopped made_accepted db_known
      all_stopped_run
