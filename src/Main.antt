-- ===== src/Main.antt =====
-- cmd/procdeck/main.go: the plan that a dry run prints, and the client without a terminal interface;
-- the flow of `run` is in Run. Numbers are printed by an argument.
pub mod Places
pub mod Headless
pub mod Run
mod Tests
use process_deck.Base.{
  ℕ, suc, ◌+◌, ◌==◌, Bool, true, false, not, ◌&&◌, ◌||◌, List, [], ◌∷◌, ◌++◌, Option, none, some,
  map, if◌then◌else◌, leb, length, max,
}
use process_deck.Base.Int.{ℤ, pos, negsuc}
use process_deck.Base.Result.{Result, ok, err, ◌>>=◌}
use process_deck.Base.Text.{Text, codes, same}
use process_deck.Base.GoStrings.{has_prefix}
use process_deck.Graph.{Deps, GraphError, startup_layers, flatten, dependencies_of}
use process_deck.Config.{Config, dependency_map, project_name}
use process_deck.Config.Validate.{ParseDuration, ConfigError, validate}
use process_deck.Supervisor.{
  Event, EventKind, state_changed, process_started, process_exited, restart_scheduled, log_line,
  process_skipped, supervisor_error, supervisor_stopped,
}
use process_deck.Session.{Received}

-- A line that is printed, to the standard output or to the standard error.
pub data Output : Type 0 where
  stdout stderr : Text → Output

-- `strings.Join` with ", "
unfoldable pub join_comma : List Text → Text
join_comma [] = []
join_comma (x ∷ []) = x
join_comma (x ∷ y ∷ xs) = x ++ codes ", " ++ join_comma (y ∷ xs)

abbrev in_brackets : Text → Text → Text
in_brackets inner rest = codes "[" ++ inner ++ codes "] " ++ rest

unfoldable pub print_exit : (ℤ → Text) → Event → List Output
print_exit show e = elim e.exit_code [
  | none ↦ []
  | some (pos n) ↦
      if n == 0
      then []
      else stderr (in_brackets e.process (codes "exited with code " ++ show (pos n))) ∷ []
  | some (negsuc n) ↦
      stderr (in_brackets e.process (codes "exited with code " ++ show (negsuc n))) ∷ []
]

-- `printHeadlessEvent`
unfoldable pub print_event : (ℤ → Text) → EventKind → Received → List Output
unfolding print_exit
print_event show log_line r =
    stdout (in_brackets (r.event.process ++ codes " " ++ r.event.stream) r.event.line) ∷ []
print_event show restart_scheduled r =
    stderr (in_brackets r.event.process (codes "restart scheduled")) ∷ []
print_event show process_exited r = print_exit show r.event
print_event show process_skipped r = stderr (in_brackets r.event.process (codes "skipped")) ∷ []
print_event show supervisor_error r = elim r.error [ none ↦ [] | some text ↦ stderr text ∷ [] ]
print_event show other r = []

-- The map of the newest cursors; a missing key is 0.
abbrev pub Cursors : Type 0
Cursors = Text → ℕ

unfoldable pub set_cursor : Cursors → Text → ℕ → Cursors
unfolding same
set_cursor cursors name cursor other = if same other name then cursor else cursors other

-- The loop over the history.
unfoldable pub after_history : Cursors → List Received → Cursors
unfolding set_cursor
after_history cursors [] = cursors
after_history cursors (r ∷ rs) =
    after_history
      (set_cursor cursors r.event.process (max (cursors r.event.process) r.event.log_cursor)) rs

-- An event with a place in the log of its process.
abbrev pub is_placed : Event → Bool
is_placed e = is_log e.kind && e.log_state_valid && not (e.log_cursor == 0)
  where
    is_log : EventKind → Bool
    is_log log_line = true
    is_log kind = false

-- One round of the loop over the live events: the event, if it is printed.
unfoldable pub headless_event : Cursors → Received → Cursors × Option Received
unfolding set_cursor
headless_event cursors r =
    if is_placed r.event
    then (if leb r.event.log_cursor (cursors r.event.process)
        then (cursors, none)
        else (set_cursor cursors r.event.process r.event.log_cursor, some r))
    else (cursors, some r)

-- What the `select` of the loop finds next: a signal to stop, with the error of the shutdown that it
-- asks for, an event, or the end of the events, with the result of the session.
pub data Input : Type 0 where
  stop : Option Text → Input
  live : Received → Input
  closed : Option Text → Input

abbrev pub with_printed :
    Option Received → List Received × Option (Option Text) → List Received × Option (Option Text)
with_printed none rest = rest
with_printed (some r) rest = (r ∷ rest.0, rest.1)

-- The loop: the events that are printed, and its result once it ends. A signal is seen once.
unfoldable pub headless_loop : Bool → Cursors → List Input → List Received × Option (Option Text)
unfolding headless_event
headless_loop armed cursors [] = ([], none)
headless_loop armed cursors (closed result ∷ inputs) = ([], some result)
headless_loop armed cursors (stop (some failure) ∷ inputs) =
    let ignored = headless_loop armed cursors inputs in
    if armed then ([], some (some failure)) else ignored
headless_loop armed cursors (stop none ∷ inputs) = headless_loop false cursors inputs
headless_loop armed cursors (live r ∷ inputs) =
    let (cursors', printed) = headless_event cursors r in
    with_printed printed (headless_loop armed cursors' inputs)

unfoldable pub outputs : (ℤ → Text) → List Received → List Output
unfolding print_event
outputs show [] = []
outputs show (r ∷ rs) = print_event show r.event.kind r ++ outputs show rs

-- `runHeadless`, over the history of the client and what its loop finds: the lines printed, and the
-- result.
unfoldable pub run_headless :
    (ℤ → Text) → List Received → List Input → List Output × Option (Option Text)
unfolding outputs after_history headless_loop
run_headless show history inputs =
    let (printed, result) = headless_loop true (after_history (λ name. 0) history) inputs in
    (outputs show history ++ outputs show printed, result)

unfoldable pub print_names : Deps → List Text → List Text
unfolding join_comma dependencies_of
print_names deps [] = []
print_names deps (name ∷ names) =
    let processes = dependencies_of deps name in
    let rest = print_names deps names in
    elim processes [
      | [] ↦ (codes "- " ++ name) ∷ rest
      | first ∷ more ↦
          (codes "- " ++ name ++ codes " depends_on [" ++ join_comma (first ∷ more) ++ codes "]")
          ∷ rest
    ]

unfoldable pub print_layers : (ℕ → Text) → ℕ → List (List Text) → List Text
unfolding join_comma
print_layers show i [] = []
print_layers show i (layer ∷ layers) =
    (show (i + 1) ++ codes ". " ++ join_comma layer) ∷ print_layers show (i + 1) layers

-- `printDryRun`, with the working directory or nothing and the path as it is displayed.
unfoldable pub print_dry_run :
    (ℕ → Text) → (Text → Text) → Option Text → Text → Config → Deps → Result GraphError (List Text)
unfolding print_names print_layers startup_layers
print_dry_run show path_base getwd displayed cfg deps =
    let project_path : Text = elim getwd [ none ↦ codes "." | some path ↦ path ] in
    startup_layers deps >>= (λ layers. ok (
      (codes "Project: " ++ project_name path_base cfg project_path)
      ∷ (codes "Config: " ++ displayed)
      ∷ []
      ∷ codes "Processes:"
      ∷ (print_names deps (flatten layers)
          ++ [] ∷ codes "Startup layers:" ∷ (print_layers show 0 layers ++ [] ∷ codes "OK" ∷ []))))

-- `displayPath`, from the answer of `filepath.Rel`
unfoldable pub display_path : Option Text → Text → Text
unfolding has_prefix
display_path none path = path
display_path (some rel) path = if has_prefix rel (codes "..") then path else rel
