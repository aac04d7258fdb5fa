-- ===== src/Tui/Tests.antt =====
-- Runs of the terminal client, and of the theorems about it.
use process_deck.Base.{◌≡◌, refl, [], ◌∷◌, ◌++◌, true, false, none, some, length, arith}
use process_deck.Base.Int.{pos}
use process_deck.Base.Text.{Text, codes}
use process_deck.Runner.{LogLine}
use process_deck.LogBuf.{Ring, items_since}
use process_deck.LogBuf.Since.{add_all}
use process_deck.Supervisor.{LogEntry, Runtime, Sup, running}
use process_deck.Supervisor.Lifecycle.{Snapshot}
use process_deck.Tui.{Model, Source, Measures, CachedLogLine}
use process_deck.Base.{◌≤◌, ◌+◌, ◌<◌, ◌-◌, inl, min}
use process_deck.Supervisor.{SupError}
use process_deck.Tui.Numbers.{u32, subtract_uint32, add_uint32, min_int}
use process_deck.Tui.Keys.{log_page_up}
use process_deck.Tui.Scroll.{scroll_log_vertically}
use process_deck.Tui.Scroll.Bounds.{saturating, scroll_log_vertically-le}
use process_deck.Tui.Layout.{sum, default_columns, visible_log_range}
use process_deck.Tui.Layout.Columns.{sum-default_columns}
use process_deck.Tui.Layout.Visible.{visible_log_range-lt}

abbrev measures : Measures
measures = record {
  width_of = length;
  wrapped_lines = λ text width. 1;
  time_of_day = λ time. codes "12:00:00";
}

abbrev entry : Text → LogEntry
entry text = record { stream = codes "out"; line = text; time = 1 }

-- The log of one process, which keeps two lines and has three.
abbrev ring : Ring LogEntry
ring = record {
  limit = pos 2;
  items = entry (codes "three") ∷ entry (codes "two") ∷ [];
  start = 1;
  revision = 3;
}

abbrev shown : Text → CachedLogLine
shown text = record {
  content = codes "12:00:00 [out]    " ++ text;
  visible = codes "12:00:00 [out]    " ++ text;
  width = 20;
  height = 1;
  start = 0;
}

abbrev db : Snapshot
db = record {
  name = codes "db";
  state = running;
  pid = 71;
  restarts = 0;
  exit_code = none;
  started_at = some 1;
  command = codes "store";
}

abbrev client : Model
client = record {
  follow = true;
  log_wrap = false;
  quitting = false;
  stopped = false;
  snapshots = db ∷ [];
  selected = 0;
  status = [];
  now = 1;
  width = 96;
  height = 24;
  table_height = 12;
  log_height = 6;
  log_offset = record { x = 0; y = 0 };
  log_maximum = record { x = 0; y = 0 };
  log_process = codes "db";
  log_cursor = 3;
  log_sync_needed = false;
  log_lines = shown (codes "two") ∷ shown (codes "three") ∷ [];
  log_nodes = [];
  log_next_y = 2;
  log_content_width = 20;
  log_content_height = 2;
  log_width_counts = (20, 2) ∷ [];
}

abbrev source : Source
source = record {
  snapshot = db ∷ [];
  logs_since = λ name.
      items_since
        (add_all ring (entry (codes "four") ∷ entry (codes "five") ∷ entry (codes "six") ∷ []));
}

abbrev db_run : Runtime
db_run = record {
  name = codes "db";
  config = record {
    cmd = codes "store";
    exec = [];
    cwd = [];
    env_file = [];
    env = [];
    depends_on = [];
    restart = [];
    backoff = [];
    stop_signal = [];
    stop_timeout = [];
    log_buffer_lines = some (pos 2);
    pty = none;
  };
  state = running;
  pid = 71;
  restarts = 0;
  exit_code = none;
  started_at = some 1;
  reached_running = true;
  stop_requested = false;
  restarting = false;
  runner = none;
  generation = 1;
  restart_cancel = none;
  cancelled = [];
  finished = some false;
  logs = ring;
}

abbrev server : Sup
server = record {
  cfg = record {
    version = pos 1;
    project = [];
    defaults = record {
      restart = [];
      backoff = [];
      stop_signal = [];
      stop_timeout = [];
      log_buffer_lines = none;
      pty = none;
    };
    processes = [];
  };
  options = record { base_dir = []; keep_running_when_done = false };
  deps = [];
  run_ctx = true;
  ctx_done = false;
  processes = (codes "db", db_run) ∷ [];
  events = [];
  done_closed = false;
  idle = false;
  events_closed = false;
  stopping = false;
  had_failed = false;
  waiting = [];
  backing_off = [];
}

abbrev line : LogLine
line = record { stream = codes "out"; line = codes "four"; time = 1 }

saturating_example : (subtract_uint32 5 8 ≡ 5 - 8) × (add_uint32 5 8 ≡ min (5 + 8) (u32 - 1))
saturating_example = saturating 5 8 (omega arith) (omega arith)

scroll_log_vertically-le_example :
    let m' = (scroll_log_vertically client log_page_up).0 in
    (m'.follow ≡ false)
    × (m'.log_maximum.y ≡ client.log_maximum.y)
    × (m'.log_offset.y ≤ m'.log_maximum.y)
scroll_log_vertically-le_example =
    scroll_log_vertically-le client log_page_up (omega arith) (inl refl)

sum-default_columns_example :
    let (widths, command) = default_columns 96 in
    (sum widths + command ≡ 96 - 20) × (min_int 16 (96 - 56) ≤ command)
sum-default_columns_example = sum-default_columns 96 (omega arith)

visible_log_range-lt_example :
    let (start, end, origin) = visible_log_range client.log_lines 1 6 in
    (start < end) × (end ≤ length client.log_lines)
visible_log_range-lt_example = visible_log_range-lt client.log_lines 1 6 (omega arith)

abbrev no_text : SupError → Text
no_text error = []
