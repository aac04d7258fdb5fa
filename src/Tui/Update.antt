-- ===== src/Tui/Update.antt =====
-- `Update` of internal/tui/model.go and the handlers it calls. A message carries the text of an error;
-- `message_of` is the `Error` method of the errors that events carry.
pub mod Selection
use process_deck.Base.{
  ℕ, suc, ◌+◌, ◌-◌, ◌==◌, Bool, true, false, not, ◌&&◌, ◌||◌, List, [], ◌∷◌, ◌++◌, Option, none,
  some, if◌then◌else◌, length,
}
use process_deck.Base.Text.{Text, codes, same}
use process_deck.Supervisor.{
  failed, skipped, terminal_state, same_state, SupError, Event, EventKind, restart_scheduled,
  log_line, process_skipped, supervisor_error, supervisor_stopped,
}
use process_deck.Supervisor.Lifecycle.{Snapshot}
use process_deck.Tui.{Model, Measures, Source, selected_process}
use process_deck.Tui.Numbers.{u32, min_int, max_int}
use process_deck.Tui.Keys.{
  UserAction, no_action, quit, select_previous, select_next, stop_process, start_process,
  restart_process, toggle_wrap, log_left, log_right,
}
use process_deck.Tui.Keys
use process_deck.Tui.Cache.{sync_log_cache, apply_log_event}
use process_deck.Tui.Scroll.{
  Effect, no_effect, exit_effect, scroll_vertical, run_command, cancel_run, toggle_follow,
  toggle_log_wrap, scroll_log_vertically, scroll_log_horizontally,
}

-- `appMessage` without the messages that only the default case takes.
pub data Message : Type 0 where
  action_message : UserAction → Message
  process_selected : ℕ → Message
  supervisor_event : Event → Message
  events_closed : Message
  uptime_tick : ℕ → Message
  command_done : (action process : Text) (error : Option Text) → Message

-- `allTerminal`, its loop and the test of an empty table.
unfoldable pub every_terminal : List Snapshot → Bool
every_terminal [] = true
every_terminal (snapshot ∷ snapshots) = terminal_state snapshot.state && every_terminal snapshots

unfoldable pub all_terminal : Model → Bool
all_terminal m = if length m.snapshots == 0 then false else every_terminal m.snapshots

-- `anyFailed`
unfoldable pub some_failed : List Snapshot → Bool
some_failed [] = false
some_failed (snapshot ∷ snapshots) =
    (same_state snapshot.state failed || same_state snapshot.state skipped) || some_failed snapshots

-- `updateTerminalStatus`
unfoldable pub update_terminal_status : Model → Model
update_terminal_status m =
    if not m.quitting && (not m.stopped && all_terminal m)
    then record m {
      status =
          if some_failed m.snapshots
          then codes "one or more processes failed"
          else codes "all processes stopped";
    }
    else m

-- The loop of `refreshSnapshots`: the first snapshot of a name.
unfoldable pub index_of : Text → List Snapshot → Option ℕ
index_of name [] = none
index_of name (snapshot ∷ snapshots) =
    let rest = index_of name snapshots in
    if same snapshot.name name
    then some 0
    else elim rest [ none ↦ none | some index ↦ some (suc index) ]

unfoldable pub clamped : ℕ → List Snapshot → ℕ
clamped index snapshots = min_int (max_int index 0) (length snapshots - 1)

-- `refreshSnapshots`
unfoldable pub refresh_snapshots : Option Source → Model → Model
refresh_snapshots none m = record m { snapshots = []; selected = 0 }
refresh_snapshots (some sup) m =
    let name = selected_process m in
    let m1 = record m { snapshots = sup.snapshot } in
    if length sup.snapshot == 0
    then record m1 { selected = 0 }
    else elim (if same name [] then none else index_of name sup.snapshot) [
      | some index ↦ record m1 { selected = index }
      | none ↦ record m1 { selected = clamped m.selected sup.snapshot }
    ]

-- `runProcessCommand`
unfoldable pub run_process_command : Option Source → Text → Model → Model × Effect
run_process_command none action m = (m, no_effect)
run_process_command (some sup) action m =
    let name = selected_process m in
    let progress = if same action (codes "stop") then codes "stopping" else action ++ codes "ing" in
    if same name []
    then (m, no_effect)
    else (record m { status = progress ++ codes " " ++ name }, run_command action name)

-- `commandStatus`
unfoldable pub command_status : Text → Text → Option Text → Text
command_status action process none = action ++ codes " " ++ process
command_status action process (some message) = message

module _ (measures : Measures) (message_of : SupError → Text) where
  -- `selectProcess`, for an index that is not negative.
  unfoldable pub select_process : Option Source → ℕ → Model → Model × Effect
  select_process supervisor index m =
      let at = clamped index m.snapshots in
      let m1 = sync_log_cache measures supervisor (record m { selected = at }) in
      let m2 = record m1 { log_offset = record { x = m1.log_offset.x; y = u32 - 1 } } in
      if length m.snapshots == 0
      then (record m { selected = 0 }, no_effect)
      else if at == m.selected
      then (m, no_effect)
      else if not m1.follow
      then (m1, no_effect)
      else (m2, scroll_vertical m2.log_offset)

  -- `moveSelection`, up and down.
  unfoldable pub move_up : Option Source → Model → Model × Effect
  move_up supervisor m =
      if length m.snapshots == 0
      then (m, no_effect)
      else select_process supervisor (clamped (m.selected - 1) m.snapshots) m

  unfoldable pub move_down : Option Source → Model → Model × Effect
  move_down supervisor m =
      if length m.snapshots == 0
      then (m, no_effect)
      else select_process supervisor (clamped (m.selected + 1) m.snapshots) m

  -- `handleAction`
  unfoldable pub handle_action : Option Source → UserAction → Model → Model × Effect
  handle_action supervisor quit m =
      if m.quitting
      then (m, no_effect)
      else (record m { quitting = true; status = codes "stopping processes" }, cancel_run)
  handle_action supervisor select_previous m = move_up supervisor m
  handle_action supervisor select_next m = move_down supervisor m
  handle_action supervisor stop_process m = run_process_command supervisor (codes "stop") m
  handle_action supervisor start_process m = run_process_command supervisor (codes "start") m
  handle_action supervisor restart_process m = run_process_command supervisor (codes "restart") m
  handle_action supervisor Keys.toggle_follow m = toggle_follow m
  handle_action supervisor toggle_wrap m = toggle_log_wrap measures m
  handle_action supervisor no_action m = (m, no_effect)
  handle_action supervisor log_left m = scroll_log_horizontally m log_left
  handle_action supervisor log_right m = scroll_log_horizontally m log_right
  handle_action supervisor action m = scroll_log_vertically m action

  -- The switch of `handleSupervisorEvent`.
  unfoldable pub event_status : Event → Model → Model
  event_status event m = elim event.kind [
    | restart_scheduled ↦ record m { status = event.process ++ codes " restart scheduled" }
    | process_skipped ↦ record m { status = event.process ++ codes " skipped" }
    | supervisor_error ↦ elim event.error [
      | none ↦ m
      | some error ↦ record m { status = message_of error }
    ]
    | supervisor_stopped ↦ record m { stopped = true; status = codes "stopped" }
    | _ ↦ m
  ]

  abbrev is_log_line : EventKind → Bool
  is_log_line log_line = true
  is_log_line _ = false

  -- `handleSupervisorEvent`
  unfoldable pub handle_supervisor_event : Option Source → Event → Model → Model × Effect
  handle_supervisor_event supervisor event m =
      let m1 = update_terminal_status (refresh_snapshots supervisor (event_status event m)) in
      if is_log_line event.kind
      then (apply_log_event measures supervisor m event, no_effect)
      else (m1, if m1.stopped then exit_effect else no_effect)

  -- `Update`
  unfoldable pub update : Option Source → Message → Model → Model × Effect
  update supervisor (action_message action) m = handle_action supervisor action m
  update supervisor (process_selected index) m = select_process supervisor index m
  update supervisor (supervisor_event event) m = handle_supervisor_event supervisor event m
  update supervisor events_closed m =
      (record m { stopped = true; status = codes "stopped" }, exit_effect)
  update supervisor (uptime_tick timestamp) m = (record m { now = timestamp }, no_effect)
  update supervisor (command_done action process error) m = (
    refresh_snapshots supervisor (record m { status = command_status action process error }),
    no_effect,
  )
