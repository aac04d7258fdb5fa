-- ===== src/Tui/Update/Selection.antt =====
-- The selected row of the process table in internal/tui/model.go.
mod Kept
use process_deck.Base.{◌+◌, ◌-◌, ◌%◌, ◌<◌, ltb, ◌≡◌, ◌⊎◌, ◌||◌, length}
use process_deck.Base.Text.{Text}
use process_deck.LogBuf.{Batch, u64}
use process_deck.Supervisor.{LogEntry}
use process_deck.Tui.{Model}
use process_deck.Tui.Cache.{
  drop_cached_log_lines, append_cached_log_line, append_all, apply_log_batch, reset_log_cache,
  clear_cached_log_lines, fetch_log_batch, push_log_event, apply_log_event,
}
use process_deck.Tui.Scroll.{Effect}
use process_deck.Tui.Keys

-- The selected row is a row of the table, or the table is empty and it is the first.
unfoldable pub IsSelected : Model → Type 0
IsSelected m = (m.selected ≡ 0) ⊎ (m.selected < length m.snapshots)

-- A handler keeps the selection.
abbrev Selects : Model × Effect → Type 0
Selects t = IsSelected t.0
