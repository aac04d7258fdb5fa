-- ===== src/Session/Launch.antt =====
-- internal/session/launch.go: how a client finds the supervisor of a session, or starts one. What the
-- operating system and the other processes answer is an argument.
pub mod Started
use process_deck.Base.{
  ℕ, Bool, true, false, ◌&&◌, List, [], ◌∷◌, ◌++◌, Option, none, some, if◌then◌else◌,
}
use process_deck.Base.Result.{Result, ok, err, ◌>>=◌, ◌>>◌}
use process_deck.Base.Text.{Text, codes, same}
use process_deck.Graph.{GraphError, validate_graph}
use process_deck.Config.{Config, dependency_map}
use process_deck.Config.Validate.{ParseDuration, ConfigError, validate}
use process_deck.Supervisor.{Options}

pub record Bootstrap : Type 0 where
  pub socket : Text
  pub config : Config
  pub options : Options

pub data OpenError : Type 0 where
  open_lock lock_failed lstat_failed load_failed launch_failed connect_failed : Text → OpenError
  stale_socket : Text → OpenError
  invalid_config : ConfigError → OpenError
  invalid_graph : GraphError → OpenError

-- The answer to `flock`.
pub data Flock : Type 0 where
  obtained would_block : Flock
  refused : Text → Flock

-- The answer to `connect`: a client, no socket or no one behind it (ENOENT, ECONNREFUSED), or another error.
pub data Dial (Client : Type 0) : Type 0 where
  connected : Client → Dial Client
  nobody failed : Text → Dial Client

-- The answer to `lstat`.
pub data Lstat : Type 0 where
  present absent : Lstat
  unknown : Text → Lstat

-- `attempts` are the dials to the owner of the lock up to the one before the first that is made behind
-- the deadline, and `last_attempt` is that one.
pub record Host (Client : Type 0) : Type 0 where
  pub lock_file : Option Text
  pub flock : Flock
  pub attempts : List (Dial Client)
  pub last_attempt : Dial Client
  pub lstat : Lstat
  pub load : Text → Result Text Config
  pub launch : Bootstrap → Option Text
  pub connect : Dial Client

module _ {Client : Type 0} where
  unfoldable pub answer : Dial Client → Result OpenError Client
  answer (connected client) = ok client
  answer (nobody reason) = err (connect_failed reason)
  answer (failed reason) = err (connect_failed reason)

  -- The loop that waits for the owner of the lock.
  unfoldable pub await_owner : Dial Client → List (Dial Client) → Result OpenError Client
  unfolding answer
  await_owner last_attempt [] = answer last_attempt
  await_owner last_attempt (nobody reason ∷ attempts) = await_owner last_attempt attempts
  await_owner last_attempt (connected client ∷ attempts) = ok client
  await_owner last_attempt (failed reason ∷ attempts) = err (connect_failed reason)

  -- The configuration that a new session is launched with.
  unfoldable pub load_valid : ParseDuration → Host Client → Text → Result OpenError Config
  load_valid parse host config_path = elim (host.load config_path) [
    | err reason ↦ err (load_failed reason)
    | ok cfg ↦ elim (validate parse cfg) [
      | err e ↦ err (invalid_config e)
      | ok _ ↦ elim (validate_graph (dependency_map cfg)) [
        | err e ↦ err (invalid_graph e)
        | ok _ ↦ ok cfg
      ]
    ]
  ]

  -- `openAt`, with what it launched, if it did.
  unfoldable pub open_at :
      ParseDuration
      → Host Client
      → Text
      → Text
      → Options
      → Result OpenError Client × Option Bootstrap
  unfolding await_owner load_valid answer
  open_at parse host path config_path options = elim host.lock_file [
    | some reason ↦ (err (open_lock reason), none)
    | none ↦ elim host.flock [
      | refused reason ↦ (err (lock_failed reason), none)
      | would_block ↦ (await_owner host.last_attempt host.attempts, none)
      | obtained ↦ elim host.lstat [
        | present ↦ (err (stale_socket path), none)
        | unknown reason ↦ (err (lstat_failed reason), none)
        | absent ↦ elim (load_valid parse host config_path) [
          | err e ↦ (err e, none)
          | ok cfg ↦
              let init : Bootstrap = record { socket = path; config = cfg; options = options } in
              elim (host.launch init) [
                | some reason ↦ (err (launch_failed reason), some init)
                | none ↦ (answer host.connect, some init)
              ]
        ]
      ]
    ]
  ]

-- `IsWorker`
unfoldable pub is_worker : List Text → Bool
unfolding same
is_worker (arg ∷ []) = same arg (codes "--internal-session")
is_worker args = false

-- What `privateDirectory` finds of its directory.
pub record Directory : Type 0 where
  pub is_dir : Bool
  pub mode_ok : Bool
  pub owned : Bool

pub data DirectoryError : Type 0 where
  mkdir_failed stat_failed : Text → DirectoryError
  not_private : Text → DirectoryError

-- The answer to `mkdir`.
pub data Mkdir : Type 0 where
  made exists : Mkdir
  denied : Text → Mkdir

-- `privateDirectory`
unfoldable pub private_directory :
    Mkdir → Result Text Directory → Text → Result DirectoryError (Unit {0})
private_directory (denied reason) stat path = err (mkdir_failed reason)
private_directory mkdir (err reason) path = err (stat_failed reason)
private_directory mkdir (ok d) path =
    if d.is_dir && d.mode_ok && d.owned then ok tt else err (not_private path)

-- The functions of the host that name a session: `filepath.Abs`, `filepath.EvalSymlinks`, which may find
-- nothing, `mkdir` and `lstat` of the directory, and the digest of a text in hexadecimal digits.
pub data Resolved : Type 0 where
  resolved : Text → Resolved
  missing : Text → Resolved
  unresolved : Text → Resolved

pub data PathError : Type 0 where
  bad_path : Text → PathError
  bad_directory : DirectoryError → PathError

pub record Paths : Type 0 where
  pub abs : Text → Result Text Text
  pub eval_symlinks : Text → Resolved
  pub dir : Text
  pub mkdir : Mkdir
  pub stat : Result Text Directory
  pub digest : Text → Text
  pub join : Text → Text → Text

abbrev path_error : Result Text Text → Result PathError Text
path_error (err reason) = err (bad_path reason)
path_error (ok path) = ok path

-- The directory has to be there.
unfoldable pub existing : Resolved → Result PathError Text
existing (resolved path) = ok path
existing (missing reason) = err (bad_path reason)
existing (unresolved reason) = err (bad_path reason)

-- The file of a running session may be gone.
unfoldable pub if_existing : Text → Resolved → Result PathError Text
if_existing path (resolved target) = ok target
if_existing path (missing reason) = ok path
if_existing path (unresolved reason) = err (bad_path reason)

abbrev directory_error : Result DirectoryError (Unit {0}) → Result PathError (Unit {0})
directory_error (err e) = err (bad_directory e)
directory_error (ok done) = ok done

unfoldable pub socket_path : Paths → Text → Text → Result PathError Text
unfolding existing if_existing private_directory
socket_path host config_path base_dir = do
  base ← path_error (host.abs base_dir)
  base' ← existing (host.eval_symlinks base)
  config ← path_error (host.abs config_path)
  config' ← if_existing config (host.eval_symlinks config)
  directory_error (private_directory host.mkdir host.stat host.dir)
  ok (host.join host.dir (host.digest (base' ++ 0 ∷ config') ++ codes ".sock"))

-- What `Open` fails with.
pub data SessionError : Type 0 where
  no_socket_path : PathError → SessionError
  not_opened : OpenError → SessionError

-- `Open`, with what it launched, if it did.
unfoldable pub open_session :
    {Client : Type 0}
    → ParseDuration
    → Paths
    → Host Client
    → Text
    → Text
    → Bool
    → Result SessionError Client × Option Bootstrap
unfolding socket_path open_at
open_session parse paths host config_path base_dir keep_running_when_done =
    elim (socket_path paths config_path base_dir) [
      | err e ↦ (err (no_socket_path e), none)
      | ok path ↦
          let options : Options = record {
            base_dir = base_dir;
            keep_running_when_done = keep_running_when_done;
          } in
          let (client, launched) = open_at parse host path config_path options in
          elim client [ err e ↦ (err (not_opened e), launched) | ok c ↦ (ok c, launched) ]
    ]
