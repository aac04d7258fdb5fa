-- ===== src/Main/Run.antt =====
-- The flow of `run` in cmd/procdeck/main.go. What `flags.Parse` finds, the host and the terminal
-- interface are arguments.
pub mod Planned
mod Tests
use process_deck.Base.{
  ℕ, Bool, true, false, not, List, [], ◌∷◌, ◌++◌, Option, none, some, if◌then◌else◌, map,
}
use process_deck.Base.Int.{ℤ}
use process_deck.Base.Result.{Result, ok, err}
use process_deck.Base.Text.{Text, codes, same}
use process_deck.Graph.{GraphError}
use process_deck.Config.{dependency_map}
use process_deck.Config.Validate.{ParseDuration, ConfigError, validate}
use process_deck.Config.Load.{Stat, LoadError, discover_path}
use process_deck.Session.Client.{Client, history}
use process_deck.Session.Launch.{Bootstrap, Host, Paths, SessionError, open_session}
use process_deck.Main.{Output, stdout, stderr, Input, run_headless, print_dry_run, display_path}

pub record Flags : Type 0 where
  pub config_path : Text
  pub no_tui : Bool
  pub dry_run : Bool
  pub show_version : Bool
  pub args : List Text

-- What `flags.Parse` finds.
pub data Parsed : Type 0 where
  help : Parsed
  bad_flags : Text → Parsed
  parsed : Flags → Parsed

pub data RunError : Type 0 where
  usage unexpected_argument not_loaded no_working_directory session_failed : Text → RunError
  not_found : LoadError → RunError
  not_valid : ConfigError → RunError
  no_layers : GraphError → RunError
  no_session : SessionError → RunError

-- `inputs` is what the loop of a client without a terminal interface finds, and `tui` the result of
-- the terminal interface.
pub record Machine : Type 0 where
  pub join : Text → Text → Text
  pub stat : Text → Stat
  pub getwd : Result Text Text
  pub rel : Text → Option Text
  pub path_base : Text → Text
  pub show_count : ℕ → Text
  pub show_code : ℤ → Text
  pub version : Text
  pub paths : Paths
  pub session : Host Client
  pub inputs : List Input
  pub tui : Client → Option Text

-- What is printed, the result, once there is one, and the session that was launched.
pub record Ran : Type 0 where
  pub printed : List Output
  pub result : Option (Option RunError)
  pub launch : Option Bootstrap

abbrev succeeded : List Output → Ran
succeeded printed = record { printed = printed; result = some none; launch = none }

abbrev failed : RunError → Ran
failed e = record { printed = []; result = some (some e); launch = none }

-- The part behind `if dryRun`.
unfoldable pub run_dry : ParseDuration → Machine → Text → Ran
unfolding validate print_dry_run display_path
run_dry parse m config_path = elim (m.session.load config_path) [
  | err reason ↦ failed (not_loaded reason)
  | ok cfg ↦ elim (validate parse cfg) [
    | err e ↦ failed (not_valid e)
    | ok _ ↦
        let getwd : Option Text = elim m.getwd [ err reason ↦ none | ok path ↦ some path ] in
        elim (print_dry_run m.show_count m.path_base getwd
          (display_path (m.rel config_path) config_path) cfg (dependency_map cfg)) [
            | err e ↦ failed (no_layers e)
            | ok lines ↦ succeeded (map stdout lines)
          ]
  ]
]

abbrev pub reattached_line : Output
reattached_line =
    stderr (
      codes "Reattached to the existing session (using its original configuration and environment)")

abbrev session_result : Option Text → Option RunError
session_result none = none
session_result (some reason) = some (session_failed reason)

-- The part behind `session.Open`.
unfoldable pub run_client : Machine → Bool → Client → Option Bootstrap → Ran
unfolding run_headless history
run_client m no_tui client launched =
    let greeting : List Output = if client.reattached then reattached_line ∷ [] else [] in
    let (printed, result) = run_headless m.show_code (history client) m.inputs in
    if no_tui
    then record {
      printed = greeting ++ printed;
      result = elim result [ none ↦ none | some error ↦ some (session_result error) ];
      launch = launched;
    }
    else record {
      printed = greeting;
      result = some (session_result (m.tui client));
      launch = launched;
    }

-- The part behind `if dryRun { … }`.
unfoldable pub run_session : ParseDuration → Machine → Bool → Text → Ran
unfolding open_session run_client
run_session parse m no_tui config_path = elim m.getwd [
  | err reason ↦ failed (no_working_directory reason)
  | ok base_dir ↦
      let (opened, launched) =
        open_session parse m.paths m.session config_path base_dir (not no_tui) in
      elim opened [
        | err e ↦ record { printed = []; result = some (some (no_session e)); launch = launched }
        | ok client ↦ run_client m no_tui client launched
      ]
]

-- The configuration that is given, or the one that is found.
unfoldable pub config_path_of : Machine → Text → Result LoadError Text
unfolding discover_path same
config_path_of m config_path =
    if same config_path [] then discover_path m.join m.stat (codes ".") else ok config_path

unfoldable pub run : ParseDuration → Machine → Parsed → Ran
unfolding config_path_of run_dry run_session
run parse m help = succeeded []
run parse m (bad_flags reason) = failed (usage reason)
run parse m (parsed flags) = elim flags.args [
  | arg ∷ args ↦ failed (unexpected_argument arg)
  | [] ↦
      if flags.show_version
      then succeeded (stdout (codes "procdeck " ++ m.version) ∷ [])
      else elim (config_path_of m flags.config_path) [
        | err e ↦ failed (not_found e)
        | ok path ↦
            if flags.dry_run then run_dry parse m path else run_session parse m flags.no_tui path
      ]
]
