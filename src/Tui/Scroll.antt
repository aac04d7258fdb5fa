-- ===== src/Tui/Scroll.antt =====
-- Scrolling and following the log in internal/tui/model.go.
pub mod Bounds
use process_deck.Base.{
  ℕ, ◌+◌, ◌-◌, ◌%◌, ◌/◌, ◌==◌, Bool, true, false, not, List, [], ◌∷◌, if◌then◌else◌, length,
}
use process_deck.Base.Text.{Text, codes}
use process_deck.Tui.{Model, Offset, Measures, CachedLogLine, LogNode}
use process_deck.Tui.Numbers.{u32, subtract_uint32, add_uint32, min_int, max_int}
use process_deck.Tui.Keys.{
  UserAction, log_page_up, log_page_down, log_half_page_up, log_half_page_down, log_top, log_bottom,
  log_left,
}
use process_deck.Tui.Cache.{log_line_height}

-- What an update asks of the library. `cancel_run` is no effect of the library: it stands for the call
-- of `m.cancel`.
pub data Effect : Type 0 where
  no_effect exit_effect cancel_run : Effect
  scroll_vertical scroll_horizontal : Offset → Effect
  run_command : (action process : Text) → Effect

abbrev with_y : ℕ → Model → Model
with_y y m = record m { log_offset = record { x = m.log_offset.x; y = y } }

abbrev with_x : ℕ → Model → Model
with_x x m = record m { log_offset = record { x = x; y = m.log_offset.y } }

-- `toggleFollow`
unfoldable pub toggle_follow : Model → Model × Effect
toggle_follow m =
    if m.follow
    then (
      record (with_y m.log_maximum.y m) { follow = false; status = codes "log follow disabled" },
      no_effect,
    )
    else let m' = record (with_y (u32 - 1) m) {
      follow = true;
      status = codes "log follow enabled";
    } in
      (m', scroll_vertical m'.log_offset)

-- The first step of `scrollLogVertically`.
unfoldable pub stop_following : Model → Model
stop_following m =
    if m.follow
    then record (with_y m.log_maximum.y m) { follow = false; status = codes "log follow disabled" }
    else m

unfoldable pub scroll_target : Model → UserAction → ℕ
scroll_target m action =
    let page = max_int m.log_height 1 % u32 in
    let half_page = max_int (m.log_height / 2) 1 % u32 in
    let y = m.log_offset.y in
    let bottom = m.log_maximum.y in
    elim action [
      | log_page_up ↦ subtract_uint32 y page
      | log_page_down ↦ min_int bottom (add_uint32 y page)
      | log_half_page_up ↦ subtract_uint32 y half_page
      | log_half_page_down ↦ min_int bottom (add_uint32 y half_page)
      | log_top ↦ 0
      | log_bottom ↦ bottom
      | _ ↦ y
    ]

-- `scrollLogVertically`
unfoldable pub scroll_log_vertically : Model → UserAction → Model × Effect
scroll_log_vertically m action =
    let m1 = stop_following m in
    let m2 = with_y (scroll_target m1 action) m1 in (m2, scroll_vertical m2.log_offset)

abbrev is_left : UserAction → Bool
is_left log_left = true
is_left _ = false

-- `scrollLogHorizontally`, by `logHorizontalScrollStep`
unfoldable pub scroll_log_horizontally : Model → UserAction → Model × Effect
scroll_log_horizontally m action =
    let x =
      if is_left action
      then subtract_uint32 m.log_offset.x 8
      else min_int m.log_maximum.x (add_uint32 m.log_offset.x 8) in
    let m' = with_x x m in
    if m.log_wrap then (m, no_effect) else (m', scroll_horizontal m'.log_offset)

module _ (measures : Measures) where
  -- The loop of `rebuildCachedLogPresentation` and of `recalculateCachedLogHeights`.
  unfoldable pub place_lines : Model → ℕ → List CachedLogLine → List CachedLogLine
  place_lines m y [] = []
  place_lines m y (line ∷ lines) =
      let h = log_line_height measures m line.visible in
      record line { start = y; height = h } ∷ place_lines m (y + h) lines

  unfoldable pub placed_height : Model → List CachedLogLine → ℕ
  placed_height m [] = 0
  placed_height m (line ∷ lines) = log_line_height measures m line.visible + placed_height m lines

  -- `recalculateCachedLogHeights`
  unfoldable pub recalculate_cached_log_heights : Model → Model
  recalculate_cached_log_heights m = record m {
    log_lines = place_lines m 0 m.log_lines;
    log_next_y = placed_height m m.log_lines;
    log_content_height = placed_height m m.log_lines;
  }

  unfoldable pub line_nodes : Bool → List CachedLogLine → List LogNode
  line_nodes wrap [] = []
  line_nodes wrap (line ∷ lines) =
      record { content = line.content; wrap = wrap } ∷ line_nodes wrap lines

  -- `rebuildCachedLogPresentation`
  unfoldable pub rebuild_cached_log_presentation : Model → Model
  rebuild_cached_log_presentation m = record (recalculate_cached_log_heights m) {
    log_nodes = line_nodes m.log_wrap m.log_lines;
  }

  -- `toggleLogWrap`
  unfoldable pub toggle_log_wrap : Model → Model × Effect
  toggle_log_wrap m =
      let m1 =
        rebuild_cached_log_presentation (record (with_x 0 m) { log_wrap = not m.log_wrap }) in
      if m1.log_wrap
      then (record m1 { status = codes "log wrap enabled" }, no_effect)
      else (record m1 { status = codes "log wrap disabled" }, scroll_horizontal m1.log_offset)

  -- `updateLogMetrics`; the text shown for an empty log is measured too.
  unfoldable pub update_log_metrics : Model → Model
  update_log_metrics m =
      let empty = length m.log_lines == 0 in
      let content_height = if empty then 1 else m.log_content_height in
      let content_width =
        if empty then measures.width_of (codes "no logs") else m.log_content_width in
      let maximum : Offset = record {
        x = (content_width - m.width) % u32;
        y = (content_height - m.log_height) % u32;
      } in
      record m {
        log_maximum = maximum;
        log_offset = record {
          x = if m.log_wrap then 0 else min_int m.log_offset.x maximum.x;
          y = if m.follow then maximum.y else min_int m.log_offset.y maximum.y;
        };
      }

  -- `resize`
  unfoldable pub resize : Model → (width height : ℕ) → Model
  resize m width height =
      let table_height = min_int (max_int 6 (height / 2)) (max_int 6 (height - 8)) in
      let m1 = record m {
        width = width;
        height = height;
        table_height = table_height;
        log_height = max_int 3 (height - table_height - 6);
      } in
      if width == 0
      then m
      else if height == 0
      then m
      else if m.width == width
      then m1
      else recalculate_cached_log_heights m1
