-- ===== src/Tui/Cache.antt =====
-- The log cache of internal/tui/model.go: the rendered lines of the selected process with their
-- places, kept in step with the supervisor's log by events and batches. Heights, widths and counts are
-- `int`s that do not go below zero.
pub mod Sync
pub mod Delivery
use process_deck.Base.{
  ℕ, zero, suc, ◌+◌, ◌-◌, ◌%◌, ◌==◌, ltb, leb, Bool, true, false, not, ◌&&◌, ◌||◌, List, [], ◌∷◌,
  ◌++◌, Option, none, some, if◌then◌else◌, length, drop, take, replicate,
}
use process_deck.Base.Text.{Text, codes, same}
use process_deck.LogBuf.{Batch, u64}
use process_deck.Supervisor.{LogEntry, Event}
use process_deck.Tui.Escape.{visible_log_text}
use process_deck.Tui.{CachedLogLine, LogNode, Model, Source, Measures, selected_process}
use process_deck.Tui.Numbers.{max_int, min_int}

-- `logSourceLabel`
unfoldable pub log_source_label : Text → Text
log_source_label stream = if same stream [] then codes "[log]" else codes "[" ++ stream ++ codes "]"

-- `%-8s`
abbrev pad : ℕ → Text → Text
pad n text = text ++ replicate (n - length text) b' '

unfoldable pub clear_cached_log_lines : Model → Model
clear_cached_log_lines m = record m {
  log_lines = [];
  log_nodes = [];
  log_next_y = 0;
  log_content_width = 0;
  log_content_height = 0;
  log_width_counts = [];
}

unfoldable pub count_of : ℕ → List (ℕ × ℕ) → ℕ
count_of w [] = 0
count_of w ((v, n) ∷ counts) = if v == w then n else count_of w counts

unfoldable pub set_count : ℕ → ℕ → List (ℕ × ℕ) → List (ℕ × ℕ)
set_count w n [] = (w, n) ∷ []
set_count w n ((v, k) ∷ counts) = if v == w then (w, n) ∷ counts else (v, k) ∷ set_count w n counts

unfoldable pub delete_count : ℕ → List (ℕ × ℕ) → List (ℕ × ℕ)
delete_count w [] = []
delete_count w ((v, k) ∷ counts) = if v == w then counts else (v, k) ∷ delete_count w counts

unfoldable pub widest : List (ℕ × ℕ) → ℕ
widest [] = 0
widest ((v, k) ∷ counts) = max_int (widest counts) v

-- The loop over the lines that are dropped, for the width counts: whether the last line of the
-- greatest width went.
unfoldable pub uncount :
    (content_width : ℕ) → List CachedLogLine → List (ℕ × ℕ) × Bool → List (ℕ × ℕ) × Bool
uncount content_width [] state = state
uncount content_width (line ∷ lines) (counts, removed) =
    let n = count_of line.width counts - 1 in
    uncount content_width lines (
      if n == 0
      then (delete_count line.width counts, removed || line.width == content_width)
      else (set_count line.width n counts, removed))

unfoldable pub heights : List CachedLogLine → ℕ
heights [] = 0
heights (line ∷ lines) = line.height + heights lines

-- `dropCachedLogLines`, for a count that is not negative.
unfoldable pub drop_cached_log_lines : Model → ℕ → Model
drop_cached_log_lines m wanted =
    let count = min_int wanted (length m.log_lines) in
    let (counts, removed) =
      uncount m.log_content_width (take count m.log_lines) (m.log_width_counts, false) in
    if count == 0 then m else record m {
      log_nodes = drop count m.log_nodes;
      log_lines = drop count m.log_lines;
      log_next_y = if length (drop count m.log_lines) == 0 then 0 else m.log_next_y;
      log_content_width = if removed then widest counts else m.log_content_width;
      log_content_height = m.log_content_height - heights (take count m.log_lines);
      log_width_counts = counts;
    }

module _ (measures : Measures) where
  open measures use {width_of, wrapped_lines, time_of_day}

  -- `formatLogEntry`
  unfoldable pub format_log_entry : LogEntry → Text
  format_log_entry e =
      time_of_day e.time ++ codes " " ++ pad 8 (log_source_label e.stream) ++ codes " " ++ e.line

  -- `logLineHeight`
  unfoldable pub log_line_height : Model → Text → ℕ
  log_line_height m visible =
      if not m.log_wrap then 1 else max_int 1 (wrapped_lines visible (max_int m.width 1))

  unfoldable pub cached_line : Model → LogEntry → CachedLogLine
  cached_line m e =
      let content = format_log_entry e in
      let visible = visible_log_text content in
      record {
        content = content;
        visible = visible;
        width = width_of visible;
        height = log_line_height m visible;
        start = m.log_next_y;
      }

  -- `appendCachedLogLine`
  unfoldable pub append_cached_log_line : Model → LogEntry → Model
  append_cached_log_line m e =
      let line = cached_line m e in
      record m {
        log_lines = m.log_lines ++ (line ∷ []);
        log_nodes = m.log_nodes ++ (record { content = line.content; wrap = m.log_wrap } ∷ []);
        log_next_y = m.log_next_y + line.height;
        log_content_height = m.log_content_height + line.height;
        log_width_counts =
            set_count line.width (count_of line.width m.log_width_counts + 1) m.log_width_counts;
        log_content_width = max_int m.log_content_width line.width;
      }

  unfoldable pub append_all : Model → List LogEntry → Model
  append_all m [] = m
  append_all m (e ∷ entries) = append_all (append_cached_log_line m e) entries

  -- `applyLogBatch`
  unfoldable pub apply_log_batch : Model → Batch LogEntry → Model
  apply_log_batch m batch =
      let m1 = if batch.reset then clear_cached_log_lines m else m in
      let existing = batch.retained - length batch.entries in
      let m2 = drop_cached_log_lines m1 (length m1.log_lines - existing) in
      let m3 = append_all m2 batch.entries in
      let m4 = drop_cached_log_lines m3 (length m3.log_lines - batch.retained) in
      record m4 { log_cursor = batch.next }

  -- `resetLogCache`
  unfoldable pub reset_log_cache : Model → Text → Model
  reset_log_cache m process =
      clear_cached_log_lines
        (record m { log_process = process; log_cursor = 0; log_sync_needed = true })

  -- What `syncLogCache` does to a cache of the selected process that has to be synchronised. The
  -- comparison of `int`s is made without a subtraction.
  unfoldable pub fetch_log_batch : Source → Model → Text → Model
  fetch_log_batch sup m name =
      let batch = sup.logs_since name m.log_cursor in
      let whole = sup.logs_since name 0 in
      let chosen =
        if not batch.reset && ltb (length m.log_lines + length batch.entries) batch.retained
        then whole
        else batch in
      record (apply_log_batch m chosen) { log_sync_needed = false }

  -- `syncLogCache`
  unfoldable pub sync_log_cache : Option Source → Model → Model
  sync_log_cache supervisor m =
      let name = selected_process m in
      let m1 = if same name m.log_process then m else reset_log_cache m name in
      elim supervisor [
        | none ↦ m1
        | some sup ↦
            if same name [] || not m1.log_sync_needed then m1 else fetch_log_batch sup m1 name
      ]

  abbrev resync : Option Source → Model → Model
  resync supervisor m = sync_log_cache supervisor (record m { log_sync_needed = true })

  -- The end of `applyLogEvent`: the event carries the next entry.
  unfoldable pub push_log_event : Model → Event → Model
  push_log_event m event =
      let expected = event.log_retained - 1 in
      let m1 = drop_cached_log_lines m (length m.log_lines - expected) in
      let m2 =
        append_cached_log_line m1
          (record { stream = event.stream; line = event.line; time = event.time }) in
      let m3 = drop_cached_log_lines m2 (length m2.log_lines - event.log_retained) in
      record m3 { log_cursor = event.log_cursor; log_sync_needed = false }

  -- `applyLogEvent`
  unfoldable pub apply_log_event : Option Source → Model → Event → Model
  apply_log_event supervisor m event =
      if not (same event.process (selected_process m))
      then m
      else if not event.log_state_valid
      then resync supervisor m
      else if ltb event.log_cursor m.log_cursor
      then m
      else if event.log_cursor == m.log_cursor
      then (if event.log_retained == length m.log_lines then m else resync supervisor m)
      else if not (event.log_cursor == (m.log_cursor + 1) % u64)
      then resync supervisor m
      else if event.log_retained == 0
      then record (clear_cached_log_lines m) {
        log_cursor = event.log_cursor;
        log_sync_needed = false;
      }
      else if ltb (length m.log_lines) (event.log_retained - 1)
      then resync supervisor m
      else push_log_event m event
