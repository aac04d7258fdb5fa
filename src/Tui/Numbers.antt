-- ===== src/Tui/Numbers.antt =====
-- The arithmetic helpers at the end of internal/tui/model.go.
use process_deck.Base.{ℕ, ◌+◌, ◌-◌, ◌%◌, ◌^◌, ltb, if◌then◌else◌}

abbrev pub u32 : ℕ
u32 = 2 ^ 32

-- `subtractUint32`; the difference does not wrap, since it is taken only where it is not negative.
unfoldable pub subtract_uint32 : ℕ → ℕ → ℕ
subtract_uint32 value amount = if ltb value amount then 0 else (value + u32 - amount) % u32

-- `addUint32`
unfoldable pub add_uint32 : ℕ → ℕ → ℕ
add_uint32 value amount = if ltb (u32 - 1 - value) amount then u32 - 1 else (value + amount) % u32

-- `minUint32` and `minInt`
unfoldable pub min_int : ℕ → ℕ → ℕ
min_int a b = if ltb a b then a else b

unfoldable pub max_int : ℕ → ℕ → ℕ
max_int a b = if ltb b a then a else b
