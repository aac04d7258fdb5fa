-- ===== src/Main/Run/Tests.antt =====
-- A dry run.
use process_deck.Base.{◌≡◌, ◌↔◌, refl, true, false, [], ◌∷◌, ◌++◌, none, some}
use process_deck.Base.Result.{ok}
use process_deck.Base.Text.{codes}
use process_deck.Config.{Config}
use process_deck.Config.Load.{absent}
use process_deck.Supervisor.Tests.Deck.{shop, no_durations}
use process_deck.Session.Client.{Client}
use process_deck.Session.Launch.{Host, Paths, Dial, nobody, Flock, would_block, Lstat, load_valid}
use process_deck.Session.Launch
use process_deck.Main.Run.{Flags, Machine, parsed, config_path_of, run}
use process_deck.Main.Run.Planned.{run-dry_run}

abbrev host : Host Client
host = record {
  lock_file = none;
  flock = would_block;
  attempts = [];
  last_attempt = nobody (codes "no such file");
  lstat = Launch.absent;
  load = λ path. ok shop;
  launch = λ init. none;
  connect = nobody (codes "no such file");
}

abbrev paths : Paths
paths = record {
  abs = λ path. ok path;
  eval_symlinks = λ path. Launch.resolved path;
  dir = codes "/tmp/procdeck-501";
  mkdir = Launch.made;
  stat = ok (record { is_dir = true; mode_ok = true; owned = true });
  digest = λ text. codes "00";
  join = λ dir name. dir ++ b'/' ∷ name;
}

abbrev machine : Machine
machine = record {
  join = λ dir name. dir ++ b'/' ∷ name;
  stat = λ path. absent;
  getwd = ok (codes "/shop");
  rel = λ path. some path;
  path_base = λ path. path;
  show_count = λ n. codes "1";
  show_code = λ n. codes "1";
  version = codes "dev";
  paths = paths;
  session = host;
  inputs = [];
  tui = λ client. none;
}

abbrev flags : Flags
flags = record {
  config_path = codes "deck.yaml";
  no_tui = false;
  dry_run = true;
  show_version = false;
  args = [];
}

given : config_path_of machine flags.config_path ≡ ok (codes "deck.yaml")
unfolding config_path_of
given = refl

run-dry_run_example :
    ((run no_durations machine (parsed flags)).launch ≡ none)
    × (((run no_durations machine (parsed flags)).result ≡ some none)
        ↔ ((cfg : Config) × (load_valid no_durations machine.session (codes "deck.yaml") ≡ ok cfg)))
run-dry_run_example =
    run-dry_run no_durations machine flags (codes "deck.yaml") refl refl refl given
