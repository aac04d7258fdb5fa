-- ===== src/Supervisor/Resolve.antt =====
-- The settings of a process: its own, else the default of the file, else the program's default
-- (`resolve…`, `shouldRestart`, `processSpec`, `commandText` of internal/supervisor/supervisor.go).
pub mod Validated
use process_deck.Base.{
  ℕ, ◌*◌, Bool, true, false, not, ◌||◌, List, [], ◌∷◌, Option, none, some, if◌then◌else◌,
}
use process_deck.Base.Int.{ℤ, pos, is_zero}
use process_deck.Base.Result.{Result, ok, err}
use process_deck.Base.Text.{Text, codes, same}
use process_deck.Base.GoStrings.{has_prefix}
use process_deck.Config.{Config, Defaults, Process}
use process_deck.Config.Validate.{ParseDuration}
use process_deck.Runner.{Spec, parse_signal}
use process_deck.Supervisor.{Runtime, Options, SupError, bad_spec}

-- In nanoseconds.
abbrev pub second : ℕ
second = 1_000_000_000

-- `resolveCWD`; `filepath.Join` is an argument.
unfoldable pub resolve_cwd : (join : Text → Text → Text) → (base_dir cwd : Text) → Text
unfolding same has_prefix
resolve_cwd join base_dir cwd =
    if same cwd []
    then base_dir
    else if has_prefix cwd (codes "/") || same base_dir []
    then cwd
    else join base_dir cwd

first_set : Text → Text → Text → Text
unfolding same
first_set own default fallback =
    if not (same own []) then own else if not (same default []) then default else fallback

unfoldable pub resolve_restart : Defaults → Process → Text
unfolding first_set
resolve_restart d p = first_set p.restart d.restart (codes "no")

unfoldable pub resolve_stop_signal : Defaults → Process → Text
unfolding first_set
resolve_stop_signal d p = first_set p.stop_signal d.stop_signal (codes "TERM")

-- The arguments of `resolveDuration`, which are strings or a duration.
pub data DurationValue : Type 0 where
  text : Text → DurationValue
  nanos : ℤ → DurationValue

resolve_duration_from : ParseDuration → ℤ → List DurationValue → ℤ
unfolding same
resolve_duration_from parse fallback [] = fallback
resolve_duration_from parse fallback (text v ∷ values) =
    let rest = resolve_duration_from parse fallback values in
    if same v [] then rest else elim (parse v) [ some d ↦ d | none ↦ rest ]
resolve_duration_from parse fallback (nanos d ∷ values) = resolve_duration_from parse d values

unfoldable pub resolve_duration : ParseDuration → List DurationValue → ℤ
unfolding resolve_duration_from
resolve_duration parse values = resolve_duration_from parse (pos 0) values

unfoldable pub resolve_backoff : ParseDuration → Defaults → Process → ℤ
unfolding resolve_duration
resolve_backoff parse d p =
    resolve_duration parse (text p.backoff ∷ text d.backoff ∷ nanos (pos second) ∷ [])

unfoldable pub resolve_stop_timeout : ParseDuration → Defaults → Process → ℤ
unfolding resolve_duration
resolve_stop_timeout parse d p =
    resolve_duration parse
      (text p.stop_timeout ∷ text d.stop_timeout ∷ nanos (pos (10 * second)) ∷ [])

first_given {ℓ} : {A : Type ℓ} → Option A → Option A → A → A
first_given (some a) default fallback = a
first_given none (some a) fallback = a
first_given none none fallback = fallback

unfoldable pub resolve_log_buffer_lines : Defaults → Process → ℤ
unfolding first_given
resolve_log_buffer_lines d p = first_given p.log_buffer_lines d.log_buffer_lines (pos 1000)

unfoldable pub resolve_pty : Defaults → Process → Bool
unfolding first_given
resolve_pty d p = first_given p.pty d.pty false

unfoldable pub should_restart : Text → ℤ → Bool
unfolding same
should_restart policy exit_code =
    if same policy (codes "always")
    then true
    else if same policy (codes "on-failure")
    then not (is_zero exit_code)
    else false

unfoldable pub process_spec :
    ParseDuration → (Text → Text → Text) → Config → Options → Runtime → Result SupError Spec
process_spec parse join cfg options r =
    elim (parse_signal (resolve_stop_signal cfg.defaults r.config)) [
      | err value ↦ err (bad_spec r.name value)
      | ok signal ↦ ok (record {
        name = r.name;
        cmd = r.config.cmd;
        exec = r.config.exec;
        cwd = resolve_cwd join options.base_dir r.config.cwd;
        env_files = r.config.env_file;
        env = r.config.env;
        stop_signal = signal;
        stop_timeout = resolve_stop_timeout parse cfg.defaults r.config;
        pty = resolve_pty cfg.defaults r.config;
      })
    ]

unfoldable pub command_text : Process → Text
unfolding same
command_text p =
    if not (same p.cmd []) then p.cmd else elim p.exec [ [] ↦ [] | first ∷ rest ↦ first ]
