-- ===== src/Session/Tests.antt =====
-- A session with one client, and the theorems on sessions at work.
use process_deck.Base.{ℕ, ◌≡◌, ◌≢◌, refl, true, false, List, [], ◌∷◌, ◌++◌, none, some, map, drop}
use process_deck.Base.Result.{ok}
use process_deck.Base.Text.{codes, same}
use process_deck.LogBuf
use process_deck.Graph.{validate_graph}
use process_deck.Config.{dependency_map, process_names}
use process_deck.Config.Validate.{process_of}
use process_deck.Runner.{parse_signal}
use process_deck.Supervisor.{
  SupError, Event, EventKind, state_changed, process_started, State, starting, running, Sup,
  runtime_of, write_runtime, emit_events, same_state,
}
use process_deck.Supervisor.Sections.{
  set_state, cancel_restart, next_generation, record_start, prepare_start, finish_start, launched,
  launch_prepared, fail_start, start_process, start_or_fail, is_some,
}
use process_deck.Supervisor.Commands.{new, fresh_runtime, fresh_runtimes}
use process_deck.Supervisor.Resolve.{
  process_spec, resolve_stop_signal, resolve_stop_timeout, resolve_pty, resolve_cwd,
  resolve_log_buffer_lines,
}
use process_deck.Supervisor.Inv.{IsValid}
use process_deck.Supervisor.Steps.{new-IsValid}
use process_deck.Supervisor.Steps
use process_deck.Supervisor.Tests.Deck.{
  plain, shop, here_dir, no_durations, joined, launch, fresh, made,
}
use process_deck.Session.{Message, decode, event_buffer_size}
use process_deck.Session.Client.{Client, read}
use process_deck.Session.Client.Reading.{received, live, read-received}
use process_deck.Session.Server.{
  Server, Phase, panicked, is_active, update, attach_begin, attach_greeted, event_message,
  serve_event, write_next,
}
use process_deck.Session.Server.Steps.{
  Reach, here, next, attaches, greets, serve_starts, supervises, serves, writes, initial_server,
}
use process_deck.Session.Server.Delivery.{IsDelivery}
use process_deck.Session.Server.Messages.{events_of}
use process_deck.Session.Server.Reached.{Reach-IsDelivery}
use process_deck.Session.Launch.{Host, Bootstrap, connected, nobody, obtained, absent}

made_run : new shop here_dir ≡ ok made
unfolding new validate_graph dependency_map fresh_runtimes fresh_runtime process_of process_names
    resolve_log_buffer_lines LogBuf.new
made_run = refl

made-IsValid : IsValid made
made-IsValid = new-IsValid shop here_dir made made_run

abbrev message : Message
message error = codes "failed"

-- A client is attached, and has its first answer; the session starts.
abbrev attached : Server
attached = (attach_begin (initial_server made)).0

abbrev greeted : Server
greeted = attach_greeted 0 attached

to_greeted : Reach no_durations joined message (initial_server made) greeted
unfolding attach_begin
to_greeted = next (next here attaches) (greets 0 refl refl)

abbrev launched_db : Sup
launched_db = (start_or_fail no_durations joined 5 launch made (codes "db")).0

abbrev about_db : EventKind → State → ℕ → Event
about_db kind state pid = record {
  kind = kind;
  process = codes "db";
  stream = [];
  line = [];
  log_cursor = 0;
  log_retained = 0;
  log_state_valid = false;
  state = some state;
  pid = pid;
  restarts = 0;
  exit_code = none;
  error = none;
  time = 5;
}

abbrev first_event : Event
first_event = about_db state_changed starting 0

abbrev other_events : List Event
other_events = about_db state_changed running 71 ∷ about_db process_started running 71 ∷ []

launched_db_events : launched_db.events ≡ first_event ∷ other_events
unfolding start_or_fail start_process prepare_start next_generation cancel_restart set_state
    same_state record_start process_spec resolve_stop_signal resolve_stop_timeout resolve_pty
    resolve_cwd parse_signal launch_prepared launched finish_start fail_start emit_events runtime_of
    write_runtime
launched_db_events = refl

-- The loop of the server runs, the database is launched, and the first event is passed on.
abbrev serving : Server
serving = record greeted { phase = Phase.running; sup = launched_db }

to_serving : Reach no_durations joined message (initial_server made) serving
unfolding attach_greeted runtime_of is_some attach_begin
to_serving = next (next to_greeted (serve_starts refl refl)) (
    supervises (
      Steps.started 5 launch (codes "db") (fresh (codes "db") (plain (codes "store") [])) refl
        refl))

abbrev served : Server
served = record serving {
  taken = first_event ∷ [];
  attachments = update serving.attachments 0 (record (serving.attachments 0) {
    queue = event_message message launched_db first_event ∷ [];
  });
}

to_served : Reach no_durations joined message (initial_server made) served
unfolding serve_event attach_greeted attach_begin event_buffer_size
to_served = next to_serving (serves false first_event other_events refl launched_db_events refl)

Reach-IsDelivery_example :
    ((id : ℕ)
      → IsDelivery message served.taken served.closing
          (is_active served.active id)
          (served.attachments id))
    × IsValid served.sup
    × (served.start ≢ panicked)
Reach-IsDelivery_example = Reach-IsDelivery no_durations joined message made-IsValid to_served

-- The client writes the event, and another client reads it.
abbrev client : Client
client = record {
  reattached = false;
  history = [];
  snapshots = [];
  error = none;
  events = [];
  closed = false;
}

abbrev written : Server
written = record served {
  attachments = update served.attachments 0 (write_next (served.attachments 0));
}

to_written : Reach no_durations joined message (initial_server made) written
unfolding attach_greeted attach_begin
to_written = next to_served (writes 0 refl)

message_spoken : (error : SupError) → same (message error) [] ≡ false
unfolding same
message_spoken error = refl

written_greeted : (written.attachments 0).greeted ≡ true
unfolding write_next attach_greeted attach_begin
written_greeted = refl

read-received_example :
    (before : List Event) × (mine : List Event) × (after : List Event) × (written.taken
      ≡ before ++ (mine ++ after))
    × (is_active written.active 0 ≡ true → after ≡ [])
    × ((read (drop 1 (written.attachments 0).sent) (codes "lost") client).events
          ++ map decode (events_of (written.attachments 0).queue)
        ≡ map (received message) (live mine))
read-received_example =
    read-received no_durations joined message message_spoken made-IsValid to_written 0
      written_greeted (codes "lost") client refl refl

-- A session that is opened for the first time.
abbrev first_host : Host Client
first_host = record {
  lock_file = none;
  flock = obtained;
  attempts = [];
  last_attempt = nobody (codes "no such file");
  lstat = absent;
  load = λ path. ok shop;
  launch = λ init. none;
  connect = connected client;
}

abbrev bootstrap : Bootstrap
bootstrap = record { socket = codes "/tmp/s"; config = shop; options = here_dir }
