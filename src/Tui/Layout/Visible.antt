-- ===== src/Tui/Layout/Visible.antt =====
-- The range of lines that `visibleLogRange` of internal/tui/model.go gives for slicing.
use process_deck.Base.{
  ℕ, zero, suc, ◌+◌, ◌-◌, ◌/◌, ◌≤◌, ◌<◌, ◌==◌, ltb, ltb→lt, Bool, List, [], ◌∷◌, length,
  length-drop, drop, if◌then◌else◌, if_ind, arith,
}
use process_deck.Tui.{CachedLogLine}
use process_deck.Tui.Numbers.{max_int}
use process_deck.Tui.Layout.{search_from, test_at, count_above, start_of, visible_log_range}

search_from-le :
    (fuel : ℕ) (test : ℕ → Bool) (low high : ℕ) → low ≤ high → search_from fuel test low high ≤ high
unfolding search_from
search_from-le zero test low high h = h
search_from-le (suc fuel) test low high h =
    let middle = (low + high) / 2 in
    if_ind (λ r. r ≤ high) (ltb low high)
      (λ apart.
        let lt = ltb→lt low high apart in
        if_ind (λ r. r ≤ high) (test middle)
          (λ _. omega (arith, search_from-le fuel test low middle (omega arith)))
          (λ _. search_from-le fuel test (middle + 1) high (omega arith)))
      (λ _. h)

count_above-le : (y : ℕ) (lines : List CachedLogLine) → count_above y lines ≤ length lines
unfolding count_above
count_above-le y [] = omega arith
count_above-le y (line ∷ lines) = ground (arith, count_above-le y lines)

-- Of a log that is not empty at least one line is shown, and the range lies within the lines, whatever
-- the offset and the height are.
pub visible_log_range-lt :
    (lines : List CachedLogLine) (offset height : ℕ)
    → 0 < length lines
    → let (start, end, origin) = visible_log_range lines offset height in
      (start < end) × (end ≤ length lines)
unfolding visible_log_range
visible_log_range-lt lines offset height some_line =
    let n = length lines in
    let visible_start = start_of lines 0 + offset in
    let found = search_from n (test_at visible_start lines) 0 n in
    let start = if found == n then n - 1 else found in
    let shown = drop start lines in
    ground (
      arith,
      search_from-le n (test_at visible_start lines) 0 n (omega arith),
      count_above-le (visible_start + max_int height 1) shown,
      length-drop start lines,
    )
