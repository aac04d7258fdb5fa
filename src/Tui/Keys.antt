-- ===== src/Tui/Keys.antt =====
-- Keys and actions of internal/tui/model.go. Of a terminal event only what the code looks at is kept.
use process_deck.Base.{ℕ, ◌==◌, Bool, ◌||◌, [], ◌∷◌, Option, none, some, if◌then◌else◌}
use process_deck.Base.Text.{Text, codes, same}

pub data UserAction : Type 0 where
  no_action quit select_previous select_next stop_process start_process restart_process : UserAction
  toggle_follow toggle_wrap log_page_up log_page_down log_half_page_up log_half_page_down :
      UserAction
  log_top log_bottom log_left log_right : UserAction

-- `vt.KeyCode`
pub data KeyCode : Type 0 where
  key_character key_up key_down key_page_up key_page_down key_home key_end key_left key_right :
      KeyCode
  other_key : KeyCode

pub record Modifiers : Type 0 where
  pub alt : Bool
  pub meta : Bool
  pub super : Bool
  pub hyper : Bool
  pub control : Bool

-- `vt.Event`
pub data TerminalEvent : Type 0 where
  text_event : Text → TerminalEvent
  key_event :
      (released : Bool) (modifiers : Modifiers) (code : KeyCode) (character : ℕ) → TerminalEvent
  other_event : TerminalEvent

-- `messageForText`
unfoldable pub message_for_text : Text → Option UserAction
message_for_text text =
    if same text (codes "q")
    then some quit
    else if same text (codes "k")
    then some select_previous
    else if same text (codes "j")
    then some select_next
    else if same text (codes "s")
    then some stop_process
    else if same text (codes "a")
    then some start_process
    else if same text (codes "r")
    then some restart_process
    else if same text (codes "f")
    then some toggle_follow
    else if same text (codes "w")
    then some toggle_wrap
    else if same text (codes "h")
    then some log_left
    else if same text (codes "l")
    then some log_right
    else none

-- The character with the control key that has an action.
unfoldable pub control_action : ℕ → Option UserAction
control_action c =
    if c == b'c'
    then some quit
    else if c == b'u'
    then some log_half_page_up
    else if c == b'd'
    then some log_half_page_down
    else none

unfoldable pub code_action : KeyCode → ℕ → Option UserAction
code_action key_character c = message_for_text (c ∷ [])
code_action key_up c = some select_previous
code_action key_down c = some select_next
code_action key_page_up c = some log_page_up
code_action key_page_down c = some log_page_down
code_action key_home c = some log_top
code_action key_end c = some log_bottom
code_action key_left c = some log_left
code_action key_right c = some log_right
code_action other_key c = none

unfoldable pub controlled_action : KeyCode → ℕ → Option UserAction
controlled_action key_character c = control_action c
controlled_action _ c = none

-- `messageForEvent`
unfoldable pub message_for_event : TerminalEvent → Option UserAction
message_for_event (text_event text) = message_for_text text
message_for_event other_event = none
message_for_event (key_event released modifiers code c) =
    if released
    then none
    else if modifiers.alt || modifiers.meta || modifiers.super || modifiers.hyper
    then none
    else if modifiers.control
    then controlled_action code c
    else code_action code c
