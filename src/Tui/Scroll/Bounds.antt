-- ===== src/Tui/Scroll/Bounds.antt =====
-- The bounds of the scroll offset in internal/tui/model.go.
use process_deck.Base.{ℕ, ◌+◌, ◌-◌, ◌≤◌, ◌<◌, min, ◌≡◌, refl, ◌⊎◌, true, false, if_ind, arith}
use process_deck.Tui.{Model}
use process_deck.Tui.Numbers.{u32, subtract_uint32, add_uint32, min_int}
use process_deck.Tui.Keys.{
  UserAction, log_page_up, log_page_down, log_half_page_up, log_half_page_down, log_top, log_bottom,
}
use process_deck.Tui.Scroll.{scroll_target, stop_following, scroll_log_vertically}

-- On `uint32`s, `subtractUint32` is the subtraction that stops at 0, and `addUint32` the addition
-- that stops at the largest value: neither wraps.
pub saturating :
    (value amount : ℕ)
    → value < u32
    → amount < u32
    → (subtract_uint32 value amount ≡ value - amount)
      × (add_uint32 value amount ≡ min (value + amount) (u32 - 1))
unfolding subtract_uint32 add_uint32
saturating value amount v a = ground arith

subtract_below :
    (value amount bound : ℕ) → value < u32 → value ≤ bound → subtract_uint32 value amount ≤ bound
unfolding subtract_uint32
subtract_below value amount bound small h = ground arith

min_below : (a b : ℕ) → min_int a b ≤ a
unfolding min_int
min_below a b = ground arith

scroll_target-le :
    (m : Model) (action : UserAction)
    → m.log_maximum.y < u32
    → m.log_offset.y ≤ m.log_maximum.y
    → scroll_target m action ≤ m.log_maximum.y
unfolding scroll_target
scroll_target-le m log_page_up small h = subtract_below _ _ _ (omega arith) h
scroll_target-le m log_half_page_up small h = subtract_below _ _ _ (omega arith) h
scroll_target-le m log_page_down small h = min_below _ _
scroll_target-le m log_half_page_down small h = min_below _ _
scroll_target-le m log_top small h = omega arith
scroll_target-le m log_bottom small h = omega arith
scroll_target-le m _ small h = h

-- Scrolling by any action ends the following of the log and leaves the offset within the range, where
-- the offset was in it or the log was followed. The range itself does not change.
pub scroll_log_vertically-le :
    (m : Model) (action : UserAction)
    → m.log_maximum.y < u32
    → (m.follow ≡ true) ⊎ (m.log_offset.y ≤ m.log_maximum.y)
    → let m' = (scroll_log_vertically m action).0 in
      (m'.follow ≡ false)
      × (m'.log_maximum.y ≡ m.log_maximum.y)
      × (m'.log_offset.y ≤ m'.log_maximum.y)
unfolding scroll_log_vertically stop_following
scroll_log_vertically-le m action small h =
    if_ind
      (λ (m1 : Model).
        (m1.follow ≡ false)
        × (m1.log_maximum.y ≡ m.log_maximum.y)
        × (scroll_target m1 action ≤ m1.log_maximum.y))
      m.follow (λ _. (refl, refl, scroll_target-le _ action small (omega arith)))
      (λ off. (off, refl, scroll_target-le m action small (ground arith)))
