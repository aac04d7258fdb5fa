-- ===== src/Tui/Layout/Search.antt =====
-- The binary search by which `visibleLogRange` of internal/tui/model.go finds the first line.
use process_deck.Base.{ℕ, ◌≤◌, ◌<◌, ◌≡◌, Bool, true, false}

-- The first place of a range where a test holds, or the end of the range.
pub record IsFirst (test : ℕ → Bool) (low high r : ℕ) : Type 0 where
  pub from : low ≤ r
  pub to : r ≤ high
  pub none_before : (i : ℕ) → low ≤ i → i < r → test i ≡ false
  pub holds : r < high → test r ≡ true
