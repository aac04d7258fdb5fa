-- ===== src/Tui/Layout.antt =====
-- The columns of the process table and the visible range of the log in internal/tui/model.go.
pub mod Columns
pub mod Search
pub mod Visible
use process_deck.Base.{
  ℕ, zero, suc, ◌+◌, ◌-◌, ◌/◌, ◌==◌, ltb, Bool, List, [], ◌∷◌, none, some, if◌then◌else◌, length,
  get_elem?, drop,
}
use process_deck.Tui.{CachedLogLine}
use process_deck.Tui.Numbers.{min_int, max_int}

abbrev pub sum : List ℕ → ℕ
sum [] = 0
sum (x ∷ xs) = x + sum xs

-- The loop that widens the columns towards their targets, in turn, by what there is to share.
unfoldable pub grow : (widths targets : List ℕ) → ℕ → List ℕ
grow [] targets expansion = []
grow (w ∷ widths) [] expansion = w ∷ widths
grow (w ∷ widths) (target ∷ targets) expansion =
    let growth = min_int (target - w) expansion in
    (w + growth) ∷ grow widths targets (expansion - growth)

abbrev pub column_minimums : List ℕ
column_minimums = 10 ∷ 8 ∷ 5 ∷ 4 ∷ 5 ∷ 4 ∷ []

abbrev pub column_targets : List ℕ
column_targets = 16 ∷ 10 ∷ 7 ∷ 8 ∷ 8 ∷ 5 ∷ []

-- `defaultColumns`: the widths of the first six columns and that of the command.
unfoldable pub default_columns : ℕ → List ℕ × ℕ
default_columns width =
    let available = max_int 1 (width - 20) in
    let used = sum column_minimums in
    let command_minimum = min_int 16 (max_int 1 (available - used)) in
    let expansion = available - used - command_minimum in
    let widths = grow column_minimums column_targets expansion in
    (widths, max_int 1 (available - sum widths))

-- The test of `sort.Search` in `visibleLogRange`: whether a line ends behind a place.
unfoldable pub ends_behind : ℕ → CachedLogLine → Bool
ends_behind y line = ltb y (line.start + line.height)

-- `sort.Search` between `low` and `high`, which halves the range; the fuel is its length.
unfoldable pub search_from : ℕ → (test : ℕ → Bool) → (low high : ℕ) → ℕ
search_from zero test low high = low
search_from (suc fuel) test low high =
    let middle = (low + high) / 2 in
    let right = search_from fuel test (middle + 1) high in
    let left = search_from fuel test low middle in
    if ltb low high then (if test middle then left else right) else low

unfoldable pub test_at : ℕ → List CachedLogLine → ℕ → Bool
test_at y lines i = elim (get_elem? lines i) [ none ↦ ltb 1 0 | some line ↦ ends_behind y line ]

-- The loop over the lines that begin above the end of the view: how many there are.
unfoldable pub count_above : ℕ → List CachedLogLine → ℕ
count_above y [] = 0
count_above y (line ∷ lines) =
    let rest = count_above y lines in if ltb line.start y then suc rest else 0

unfoldable pub start_of : List CachedLogLine → ℕ → ℕ
start_of lines i = elim (get_elem? lines i) [ none ↦ 0 | some line ↦ line.start ]

-- `visibleLogRange`, for an offset that is not negative: the first line, the line behind the last,
-- and the place of the first line below the top of the log.
unfoldable pub visible_log_range : List CachedLogLine → (offset height : ℕ) → ℕ × ℕ × ℕ
visible_log_range lines offset height =
    let n = length lines in
    let base = start_of lines 0 in
    let visible_start = base + offset in
    let visible_end = visible_start + max_int height 1 in
    let found = search_from n (test_at visible_start lines) 0 n in
    let start = if found == n then n - 1 else found in
    let rows = count_above visible_end (drop start lines) in
    let shown = if rows == 0 then 1 else rows in
    if n == 0 then (0, 0, 0) else (start, start + shown, start_of lines start - base)
