-- ===== src/Config/Load.antt =====
-- internal/config/load.go and env_files.go: finding and reading the configuration, and the decoding of
-- `env_file`. The answers of the file system and of the YAML decoder are arguments.
use process_deck.Base.{ℕ, ◌+◌, ◌≡◌, refl, List, [], ◌∷◌, ◌++◌, ap, sym, subst}
use process_deck.Base.Result.{Result, ok, err}
use process_deck.Base.Text.{Text, codes}
use process_deck.Config.{Config}

-- The answer to `stat`.
pub data Stat : Type 0 where
  regular directory absent : Stat
  unknown : Text → Stat

pub data LoadError : Type 0 where
  not_opened not_parsed : (path reason : Text) → LoadError
  not_inspected : (path reason : Text) → LoadError
  none_found : LoadError

abbrev pub default_config_filenames : List Text
default_config_filenames =
    codes "process-deck.yaml"
    ∷ codes "process-deck.yml"
    ∷ codes "procdeck.yaml"
    ∷ codes "procdeck.yml"
    ∷ []

-- The loop over the names.
unfoldable pub discover_in :
    (Text → Text → Text) → (Text → Stat) → Text → List Text → Result LoadError Text
discover_in join stat dir [] = err none_found
discover_in join stat dir (name ∷ names) =
    let path = join dir name in
    elim (stat path) [
      | regular ↦ ok path
      | directory ↦ discover_in join stat dir names
      | absent ↦ discover_in join stat dir names
      | unknown reason ↦ err (not_inspected path reason)
    ]

unfoldable pub discover_path : (Text → Text → Text) → (Text → Stat) → Text → Result LoadError Text
unfolding discover_in
discover_path join stat dir = discover_in join stat dir default_config_filenames

-- `LoadFile`, with the content of a file and its decoding.
unfoldable pub load_file :
    {Content : Type 0}
    → (Text → Result Text Content)
    → (Content → Result Text Config)
    → Text
    → Result LoadError Config
load_file open_ decode path = elim (open_ path) [
  | err reason ↦ err (not_opened path reason)
  | ok content ↦ elim (decode content) [
    | err reason ↦ err (not_parsed path reason)
    | ok cfg ↦ ok cfg
  ]
]

-- A node of YAML: a scalar with its value, a sequence or another one. Items are nodes too, of which only
-- scalars are looked into.
pub data Item : Type 0 where
  scalar_item : Text → Item
  other_item : Item

pub data Node : Type 0 where
  scalar : Text → Node
  sequence : List Item → Node
  other_node : Node

pub data EnvFilesError : Type 0 where
  not_a_string : ℕ → EnvFilesError
  wrong_kind : EnvFilesError

-- The loop over the items of a sequence, from the one with the index `i` on.
unfoldable pub item_values : ℕ → List Text → List Item → Result EnvFilesError (List Text)
item_values i values [] = ok values
item_values i values (scalar_item value ∷ items) = item_values (i + 1) (values ++ value ∷ []) items
item_values i values (other_item ∷ items) = err (not_a_string i)

-- `UnmarshalYAML` of `EnvFiles`
unfoldable pub unmarshal_env_files : Node → Result EnvFilesError (List Text)
unfolding item_values
unmarshal_env_files (scalar value) = ok (value ∷ [])
unmarshal_env_files (sequence items) = item_values 0 [] items
unmarshal_env_files other_node = err wrong_kind

-- A name that the search passes by.
abbrev pub IsPassed : Stat → Type 0
IsPassed regular = ⊥
IsPassed directory = Unit
IsPassed absent = Unit
IsPassed (unknown reason) = ⊥

abbrev pub AllPassed : (Text → Text → Text) → (Text → Stat) → Text → List Text → Type 0
AllPassed join stat dir [] = Unit
AllPassed join stat dir (name ∷ names) =
    IsPassed (stat (join dir name)) × AllPassed join stat dir names

-- Why a search ends as it does.
pub data Found (join : Text → Text → Text) (stat : Text → Stat) (dir : Text) (names : List Text)
    : Result LoadError Text → Type 0 where
  first :
      (front : List Text) (name : Text) (behind : List Text)
      → names ≡ front ++ name ∷ behind
      → AllPassed join stat dir front
      → stat (join dir name) ≡ regular
      → Found join stat dir names (ok (join dir name))
  unclear :
      (front : List Text) (name : Text) (behind : List Text) (reason : Text)
      → names ≡ front ++ name ∷ behind
      → AllPassed join stat dir front
      → stat (join dir name) ≡ unknown reason
      → Found join stat dir names (err (not_inspected (join dir name) reason))
  nowhere : AllPassed join stat dir names → Found join stat dir names (err none_found)

module _ (join : Text → Text → Text) (stat : Text → Stat) (dir : Text) where
  Found-cons :
      {names : List Text} {result : Result LoadError Text} (name : Text)
      → IsPassed (stat (join dir name))
      → Found join stat dir names result
      → Found join stat dir (name ∷ names) result
  Found-cons name p (first front n behind e passed h) =
      first (name ∷ front) n behind (ap (λ l. name ∷ l) e) (p, passed) h
  Found-cons name p (unclear front n behind reason e passed h) =
      unclear (name ∷ front) n behind reason (ap (λ l. name ∷ l) e) (p, passed) h
  Found-cons name p (nowhere passed) = nowhere (p, passed)

  discover_in-Found :
      (names : List Text) → Found join stat dir names (discover_in join stat dir names)
  unfolding discover_in
  discover_in-Found [] = nowhere tt
  discover_in-Found (name ∷ names) = at (stat (join dir name)) refl (discover_in-Found names)
    where
      at :
          (s : Stat)
          → stat (join dir name) ≡ s
          → Found join stat dir names (discover_in join stat dir names)
          → Found join stat dir (name ∷ names) (elim s [
            | regular ↦ ok (join dir name)
            | directory ↦ discover_in join stat dir names
            | absent ↦ discover_in join stat dir names
            | unknown reason ↦ err (not_inspected (join dir name) reason)
          ])
      at regular e rest = first [] name names refl tt e
      at directory e rest = Found-cons name (subst IsPassed (sym e) tt) rest
      at absent e rest = Found-cons name (subst IsPassed (sym e) tt) rest
      at (unknown reason) e rest = unclear [] name names reason refl tt e

-- The configuration that is found is the first of the default names that is a file and not a directory;
-- a name that cannot be inspected ends the search before it, and none is found only when every name is
-- missing or a directory.
pub discover_path-Found :
    (join : Text → Text → Text) (stat : Text → Stat) (dir : Text)
    → Found join stat dir default_config_filenames (discover_path join stat dir)
unfolding discover_path
discover_path-Found join stat dir = discover_in-Found join stat dir default_config_filenames
