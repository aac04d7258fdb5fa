-- ===== src/Runner.antt =====
-- internal/process: what a process is launched with (runner.go) and the signals by name (signals.go).
pub mod Command
pub mod Group
pub mod Logs
mod Tests
use process_deck.Base.{ℕ, Bool, List, [], Option, if◌then◌else◌}
use process_deck.Base.Int.{ℤ}
use process_deck.Base.Result.{Result, ok, err}
use process_deck.Base.Text.{Text, codes, same}
use process_deck.Config.Validate.{signal_name}

pub data Signal : Type 0 where
  term int kill hup quit : Signal

pub record Spec : Type 0 where
  pub name : Text
  pub cmd : Text
  pub exec : List Text
  pub cwd : Text
  pub env_files : List Text
  pub env : List (Text × Text)
  pub stop_signal : Signal
  pub stop_timeout : ℤ
  pub pty : Bool

-- How a process ended. The errors are only looked at for being there.
pub record ExitResult : Type 0 where
  pub exit_code : ℤ
  pub failure : Option Text
  pub supervision_failure : Option Text

pub record LogLine : Type 0 where
  pub stream : Text
  pub line : Text
  pub time : ℕ

-- `ParseSignal` brings a name into the form that the validation compares too.
unfoldable pub parse_signal : Text → Result Text Signal
unfolding signal_name same
parse_signal value =
    let name = signal_name value in
    if same name []
    then ok term
    else if same name (codes "TERM")
    then ok term
    else if same name (codes "INT")
    then ok int
    else if same name (codes "KILL")
    then ok kill
    else if same name (codes "HUP")
    then ok hup
    else if same name (codes "QUIT")
    then ok quit
    else err value
