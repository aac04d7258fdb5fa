-- ===== src/Tui/Layout/Columns.antt =====
-- The column widths of `defaultColumns` in internal/tui/model.go.
use process_deck.Base.{ℕ, ◌+◌, ◌-◌, ◌≤◌, ◌≡◌, List, [], ◌∷◌, arith}
use process_deck.Tui.Numbers.{min_int, max_int}
use process_deck.Tui.Layout.{sum, grow, column_minimums, column_targets, default_columns}

sum-grow :
    (widths targets : List ℕ) (expansion : ℕ)
    → (sum widths ≤ sum (grow widths targets expansion))
      × (sum (grow widths targets expansion) ≤ sum widths + expansion)
unfolding grow min_int
sum-grow [] targets e = omega arith
sum-grow (w ∷ widths) [] e = omega arith
sum-grow (w ∷ widths) (t ∷ targets) e =
    ground (arith, sum-grow widths targets (e - min_int (t - w) e))

-- From a width of 57 on, the columns and the command fill the table exactly, and the command has at
-- least 16 cells, or all that the least widths of the other columns leave.
pub sum-default_columns :
    (width : ℕ)
    → 57 ≤ width
    → let (widths, command) = default_columns width in
      (sum widths + command ≡ width - 20) × (min_int 16 (width - 56) ≤ command)
unfolding default_columns max_int min_int
sum-default_columns width h =
    let available = max_int 1 (width - 20) in
    let expansion = available - 36 - min_int 16 (max_int 1 (available - 36)) in
    ground (arith, sum-grow column_minimums column_targets expansion)
