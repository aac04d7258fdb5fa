-- ===== src/Runner/Command.antt =====
-- `buildCommand` and `buildEnv` of internal/process/runner.go. What they ask of the host is an argument:
-- `os.Environ`, and what the environment files need.
pub mod Precedence
use process_deck.Base.{◌==◌, Bool, true, false, not, ◌||◌, List, [], ◌∷◌, ◌++◌, map, if◌then◌else◌}
use process_deck.Base.Result.{Result, ok, err, ◌>>=◌}
use process_deck.Base.Text.{Text, codes, same, sort}
use process_deck.Base.GoStrings.{trim_space}
use process_deck.EnvFile.{FileError, Unquote, ReadLines, read_env_file, resolve_env_file_path}
use process_deck.Runner.{Spec}

pub record Host : Type 0 where
  pub environ : List Text
  pub unquote : Unquote
  pub read : ReadLines
  pub is_abs : Text → Bool
  pub join : Text → Text → Text

pub record Command : Type 0 where
  pub path : Text
  pub args : List Text
  pub dir : Text
  pub env : List Text

pub data CommandError : Type 0 where
  missing_executable : CommandError
  env_failed : FileError → CommandError

-- `env[key]` of a map.
unfoldable pub value_at : List (Text × Text) → Text → Text
unfolding same
value_at [] key = []
value_at ((k, v) ∷ env) key = if same k key then v else value_at env key

unfoldable pub add_env_files : Host → Text → List Text → List Text → Result CommandError (List Text)
unfolding read_env_file resolve_env_file_path
add_env_files host cwd [] values = ok values
add_env_files host cwd (path ∷ paths) values =
    elim (read_env_file host.unquote host.read
      (resolve_env_file_path host.is_abs host.join cwd path)) [
        | err e ↦ err (env_failed e)
        | ok entries ↦ add_env_files host cwd paths (values ++ entries)
      ]

unfoldable pub explicit_env : List (Text × Text) → List Text
unfolding value_at sort
explicit_env env = map (λ key. key ++ b'=' ∷ value_at env key) (sort (map (λ (k, v). k) env))

unfoldable pub build_env :
    Host → Text → List Text → List (Text × Text) → Result CommandError (List Text)
unfolding add_env_files explicit_env
build_env host cwd env_files env = add_env_files host cwd env_files host.environ >>= (λ values.
    let with_env = ok (values ++ explicit_env env) in
    elim env [ [] ↦ ok values | _ ∷ _ ↦ with_env ])

abbrev add_env :
    Text → List Text → Text → Result CommandError (List Text) → Result CommandError Command
add_env path args dir env =
    env >>= (λ values. ok (record { path = path; args = args; dir = dir; env = values }))

unfoldable pub build_command : Host → Spec → Result CommandError Command
unfolding build_env trim_space same
build_command host spec =
    let env = build_env host spec.cwd spec.env_files spec.env in
    if not (same (trim_space spec.cmd) [])
    then add_env (codes "/bin/sh") (codes "-c" ∷ spec.cmd ∷ []) spec.cwd env
    else elim spec.exec [
      | [] ↦ err missing_executable
      | first ∷ rest ↦
          if same (trim_space first) []
          then err missing_executable
          else add_env first rest spec.cwd env
    ]
