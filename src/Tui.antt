-- ===== src/Tui.antt =====
-- internal/tui/model.go: the state of the terminal client. What the client draws with (the widgets of
-- nagitui and the cell widths of nagi) is a library: a node is kept as the text and the wrapping that
-- it is made from, an effect as a value, and the widths are arguments.
pub mod Numbers
pub mod Cache
pub mod Scroll
pub mod Keys
pub mod Update
pub mod Escape
pub mod Layout
mod Tests
use process_deck.Base.{ℕ, ◌==◌, ltb, Bool, List, Option, if◌then◌else◌, get_elem?, none, some, []}
use process_deck.Base.Text.{Text}
use process_deck.LogBuf.{Batch}
use process_deck.Supervisor.{LogEntry}
use process_deck.Supervisor.Lifecycle.{Snapshot}

-- `cachedLogLine`
pub record CachedLogLine : Type 0 where
  pub content : Text
  pub visible : Text
  pub width : ℕ
  pub height : ℕ
  pub start : ℕ

-- `logLineNode`: the text and whether it is wrapped.
pub record LogNode : Type 0 where
  pub content : Text
  pub wrap : Bool

pub record Offset : Type 0 where
  pub x : ℕ
  pub y : ℕ

pub record Model : Type 0 where
  pub follow : Bool
  pub log_wrap : Bool
  pub quitting : Bool
  pub stopped : Bool
  pub snapshots : List Snapshot
  pub selected : ℕ
  pub status : Text
  pub now : ℕ
  pub width : ℕ
  pub height : ℕ
  pub table_height : ℕ
  pub log_height : ℕ
  pub log_offset : Offset
  pub log_maximum : Offset
  pub log_process : Text
  pub log_cursor : ℕ
  pub log_sync_needed : Bool
  pub log_lines : List CachedLogLine
  pub log_nodes : List LogNode
  pub log_next_y : ℕ
  pub log_content_width : ℕ
  pub log_content_height : ℕ
  -- `logWidthCounts`: how many lines there are of each width.
  pub log_width_counts : List (ℕ × ℕ)

-- What the client asks of the supervisor.
pub record Source : Type 0 where
  pub snapshot : List Snapshot
  pub logs_since : Text → ℕ → Batch LogEntry

-- The parts of the libraries that a log line is measured with: `celltext.Width`, the number of lines
-- of `IterateWrappedLines` and the format of a time of day.
pub record Measures : Type 0 where
  pub width_of : Text → ℕ
  pub wrapped_lines : Text → ℕ → ℕ
  pub time_of_day : ℕ → Text

-- `selectedProcess`
unfoldable pub selected_process : Model → Text
selected_process m = elim (get_elem? m.snapshots m.selected) [
  | none ↦ []
  | some snapshot ↦ snapshot.name
]
