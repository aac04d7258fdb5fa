-- ===== src/Supervisor/Tests/Deck.antt =====
-- A deck of two processes for the tests.
use process_deck.Base.{List, [], ◌∷◌, ◌++◌, false, none, some}
use process_deck.Base.Int.{pos}
use process_deck.Base.Result.{ok}
use process_deck.Base.Text.{Text, codes}
use process_deck.Config.{Config, Process}
use process_deck.Config.Validate.{ParseDuration}
use process_deck.Runner.{ExitResult}
use process_deck.Supervisor.{pending, Options, Runtime, Sup}
use process_deck.Supervisor.Sections.{Launch}

abbrev pub plain : Text → List Text → Process
plain command needs = record {
  cmd = command;
  exec = [];
  cwd = [];
  env_file = [];
  env = [];
  depends_on = needs;
  restart = codes "on-failure";
  backoff = [];
  stop_signal = [];
  stop_timeout = [];
  log_buffer_lines = none;
  pty = none;
}

abbrev pub shop : Config
shop = record {
  version = pos 1;
  project = codes "shop";
  defaults = record {
    restart = [];
    backoff = [];
    stop_signal = [];
    stop_timeout = [];
    log_buffer_lines = some (pos 2);
    pty = none;
  };
  processes =
      (codes "web", plain (codes "serve") (codes "db" ∷ []))
      ∷ (codes "db", plain (codes "store") [])
      ∷ [];
}

abbrev pub here_dir : Options
here_dir = record { base_dir = codes "/srv"; keep_running_when_done = false }

abbrev pub no_durations : ParseDuration
no_durations text = none

abbrev pub joined : Text → Text → Text
joined a b = a ++ codes "/" ++ b

abbrev pub launch : Launch
launch spec = ok 71

abbrev pub clean : ExitResult
clean = record { exit_code = pos 0; failure = none; supervision_failure = none }

abbrev pub fresh : Text → Process → Runtime
fresh name process = record {
  name = name;
  config = process;
  state = pending;
  pid = 0;
  restarts = 0;
  exit_code = none;
  started_at = none;
  reached_running = false;
  stop_requested = false;
  restarting = false;
  runner = none;
  generation = 0;
  restart_cancel = none;
  cancelled = [];
  finished = none;
  logs = record { limit = pos 2; items = []; start = 0; revision = 0 };
}

abbrev pub made : Sup
made = record {
  cfg = shop;
  options = here_dir;
  deps = (codes "web", codes "db" ∷ []) ∷ (codes "db", []) ∷ [];
  run_ctx = false;
  ctx_done = false;
  processes =
      (codes "db", fresh (codes "db") (plain (codes "store") []))
      ∷ (codes "web", fresh (codes "web") (plain (codes "serve") (codes "db" ∷ [])))
      ∷ [];
  events = [];
  done_closed = false;
  idle = false;
  events_closed = false;
  stopping = false;
  had_failed = false;
  waiting = [];
  backing_off = [];
}
