-- ===== src/Config/Validate.antt =====
-- internal/config/validate.go. The order of a list of environment pairs stands for the order in which
-- Go runs through the map. `time.ParseDuration` is an argument: nanoseconds, or nothing for an error.
pub mod Accepted
use process_deck.Base.{ℕ, not, List, [], ◌∷◌, ◌++◌, Option, none, some, if◌then◌else◌, ◌==◌, ◌+◌}
use process_deck.Base.Int.{ℤ, pos, negsuc}
use process_deck.Base.Result.{Result, ok, err, ◌>>◌}
use process_deck.Base.Text.{Text, codes, same, member}
use process_deck.Base.GoStrings.{trim_space, trim_prefix, to_upper, contains_char}
use process_deck.Config.{Config, Defaults, Process, process_names}

abbrev pub ParseDuration : Type 0
ParseDuration = Text → Option ℤ

pub data ConfigError : Type 0 where
  version_required no_processes empty_name : ConfigError
  unsupported_version : ℤ → ConfigError
  cmd_or_exec empty_exec empty_env_key : Text → ConfigError
  env_key_with_equals : Text → Text → ConfigError
  empty_env_file : Text → ℕ → ConfigError
  bad_restart bad_stop_signal negative_log_lines : (path : Text) → ConfigError
  bad_duration : (path value : Text) → ConfigError

abbrev pub Check : Type 0
Check = Result ConfigError (Unit {0})

unfoldable pub validate_restart : Text → Text → Check
unfolding member
validate_restart path value =
    if same value []
    then ok tt
    else if member value (codes "no" ∷ codes "on-failure" ∷ codes "always" ∷ [])
    then ok tt
    else err (bad_restart path)

unfoldable pub validate_duration : ParseDuration → Text → Text → Check
unfolding same
validate_duration parse path value =
    if same value []
    then ok tt
    else elim (parse value) [ some d ↦ ok tt | none ↦ err (bad_duration path value) ]

-- The name of a signal, without `SIG`, in upper case.
unfoldable pub signal_name : Text → Text
unfolding trim_space to_upper trim_prefix
signal_name value = trim_prefix (to_upper (trim_space value)) (codes "SIG")

unfoldable pub validate_stop_signal : Text → Text → Check
unfolding member signal_name
validate_stop_signal path value =
    if same value []
    then ok tt
    else if member (signal_name value)
        (codes "TERM" ∷ codes "INT" ∷ codes "KILL" ∷ codes "HUP" ∷ codes "QUIT" ∷ [])
    then ok tt
    else err (bad_stop_signal path)

unfoldable pub validate_log_lines : Text → Option ℤ → Check
validate_log_lines path none = ok tt
validate_log_lines path (some (pos n)) = ok tt
validate_log_lines path (some (negsuc n)) = err (negative_log_lines path)

unfoldable pub validate_defaults : ParseDuration → Defaults → Check
validate_defaults parse d = do
  validate_restart (codes "defaults.restart") d.restart
  validate_duration parse (codes "defaults.backoff") d.backoff
  validate_duration parse (codes "defaults.stop_timeout") d.stop_timeout
  validate_stop_signal (codes "defaults.stop_signal") d.stop_signal
  validate_log_lines (codes "defaults.log_buffer_lines") d.log_buffer_lines

validate_command : Text → Process → Check
unfolding same trim_space
validate_command name process =
    let has_cmd = not (same (trim_space process.cmd) []) in
    elim process.exec [
      | [] ↦ if has_cmd then ok tt else err (cmd_or_exec name)
      | first ∷ _ ↦
          if has_cmd
          then err (cmd_or_exec name)
          else if same (trim_space first) []
          then err (empty_exec name)
          else ok tt
    ]

validate_env : Text → List (Text × Text) → Check
unfolding same trim_space contains_char
validate_env name [] = ok tt
validate_env name ((key, value) ∷ env) =
    let rest = validate_env name env in
    if same (trim_space key) []
    then err (empty_env_key name)
    else if contains_char key b'='
    then err (env_key_with_equals name key)
    else rest

validate_env_files : Text → ℕ → List Text → Check
unfolding same trim_space
validate_env_files name i [] = ok tt
validate_env_files name i (path ∷ paths) =
    let rest = validate_env_files name (i + 1) paths in
    if same (trim_space path) [] then err (empty_env_file name i) else rest

abbrev field : Text → Text → Text
field name key = codes "processes." ++ name ++ codes "." ++ key

unfoldable pub validate_process : ParseDuration → Text → Process → Check
unfolding validate_command validate_env validate_env_files
validate_process parse name process = do
  validate_command name process
  validate_env name process.env
  validate_env_files name 0 process.env_file
  validate_restart (field name (codes "restart")) process.restart
  validate_duration parse (field name (codes "backoff")) process.backoff
  validate_duration parse (field name (codes "stop_timeout")) process.stop_timeout
  validate_stop_signal (field name (codes "stop_signal")) process.stop_signal
  validate_log_lines (field name (codes "log_buffer_lines")) process.log_buffer_lines

-- `c.Processes[name]`; the names asked for are keys of the map.
unfoldable pub process_of : List (Text × Process) → Text → Option Process
unfolding same
process_of [] name = none
process_of ((key, process) ∷ rest) name =
    if same key name then some process else process_of rest name

validate_named : ParseDuration → Config → List Text → Check
unfolding same trim_space process_of
validate_named parse c [] = ok tt
validate_named parse c (name ∷ names) =
    let rest = validate_named parse c names in
    if same (trim_space name) [] then err empty_name else elim (process_of c.processes name) [
      | none ↦ rest
      | some process ↦ validate_process parse name process >> rest
    ]

check_version : ℤ → Check
check_version (pos n) =
    if n == 0
    then err version_required
    else if n == 1
    then ok tt
    else err (unsupported_version (pos n))
check_version (negsuc n) = err (unsupported_version (negsuc n))

check_count : List (Text × Process) → Check
check_count [] = err no_processes
check_count (p ∷ ps) = ok tt

unfoldable pub validate : ParseDuration → Config → Check
unfolding check_version check_count validate_named process_names
validate parse c = do
  check_version c.version
  check_count c.processes
  validate_defaults parse c.defaults
  validate_named parse c (process_names c)
