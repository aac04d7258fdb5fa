-- ===== src/Config.antt =====
-- internal/config: the schema of the YAML file, what the program reads off it (config.go) and its
-- validation (validate.go, in the child module). The YAML decoder is a library.
pub mod Validate
pub mod Load
mod Tests
use process_deck.Base.{ℕ, Bool, ◌||◌, List, [], ◌∷◌, Option, if◌then◌else◌, not}
use process_deck.Base.Int.{ℤ}
use process_deck.Base.Text.{Text, codes, same, sort}
use process_deck.Base.GoStrings.{trim_space}
use process_deck.Graph.{Deps}

pub record Defaults : Type 0 where
  pub restart : Text
  pub backoff : Text
  pub stop_signal : Text
  pub stop_timeout : Text
  pub log_buffer_lines : Option ℤ
  pub pty : Option Bool

pub record Process : Type 0 where
  pub cmd : Text
  pub exec : List Text
  pub cwd : Text
  pub env_file : List Text
  pub env : List (Text × Text)
  pub depends_on : List Text
  pub restart : Text
  pub backoff : Text
  pub stop_signal : Text
  pub stop_timeout : Text
  pub log_buffer_lines : Option ℤ
  pub pty : Option Bool

-- The map of processes is a list with a pair for each key.
pub record Config : Type 0 where
  pub version : ℤ
  pub project : Text
  pub defaults : Defaults
  pub processes : List (Text × Process)

names_of : List (Text × Process) → List Text
names_of [] = []
names_of ((name, process) ∷ rest) = name ∷ names_of rest

unfoldable pub process_names : Config → List Text
unfolding names_of sort
process_names c = sort (names_of c.processes)

deps_from : List (Text × Process) → Deps
deps_from [] = []
deps_from ((name, process) ∷ rest) = (name, process.depends_on) ∷ deps_from rest

unfoldable pub dependency_map : Config → Deps
unfolding deps_from
dependency_map c = deps_from c.processes

-- `filepath.Base` is an argument.
unfoldable pub project_name : (path_base : Text → Text) → Config → Text → Text
unfolding same
project_name path_base c fallback_path =
    if not (same (trim_space c.project) [])
    then c.project
    else let base = path_base fallback_path in
      if same base (codes ".") || same base (codes "/") then codes "process-deck" else base
