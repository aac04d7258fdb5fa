-- ===== src/LogBuf.antt =====
-- internal/logbuf/ring.go: the bounded log of one process, with a revision counter for readers
-- that ask for what is new. The index arithmetic and the wrap of the `uint64` revision are kept.
pub mod Inv
pub mod Contents
pub mod Since
mod Tests
use process_deck.Base.{
  ℕ, zero, suc, ◌+◌, ◌-◌, ◌%◌, ◌^◌, ◌==◌, ltb, if◌then◌else◌, Bool, true, false, not, ◌||◌, List,
  [], ◌∷◌, ◌++◌, Option, none, some, length, get_elem?, set,
}
use process_deck.Base.Int.{ℤ, pos_part}

pub record Ring {ℓ} (A : Type ℓ) : Type ℓ where
  pub limit : ℤ
  pub items : List A
  pub start : ℕ
  pub revision : ℕ

abbrev pub u64 : ℕ
u64 = 2 ^ 64

-- What a reader that knows the ring up to a cursor is given.
pub record Batch {ℓ} (A : Type ℓ) : Type ℓ where
  pub entries : List A
  pub next : ℕ
  pub retained : ℕ
  pub reset : Bool

module _ {ℓ} {A : Type ℓ} where
  unfoldable pub new : ℤ → Ring A
  new limit = record { limit = limit; items = []; start = 0; revision = 0 }

  -- A positive limit is its positive part, and any other limit has none.
  store : Ring A → A → Ring A
  store r item =
      if ltb (length r.items) (pos_part r.limit)
      then record r { items = r.items ++ (item ∷ []) }
      else record r { items = set r.items r.start item; start = (r.start + 1) % pos_part r.limit }

  bump : Ring A → Ring A
  bump r =
      if r.revision == u64 - 1
      then record r { revision = length r.items }
      else record r { revision = r.revision + 1 }

  unfoldable pub add : Ring A → A → Ring A
  unfolding store bump
  add r item = if pos_part r.limit == 0 then r else bump (store r item)

  -- `n` items from place `i` on, counted from the oldest. No index is out of range, since it is
  -- reduced by the length.
  unfoldable pub collect : List A → (start n i : ℕ) → List A
  collect xs start zero i = []
  collect xs start (suc n) i =
      let rest = collect xs start n (i + 1) in
      elim (get_elem? xs ((start + i) % length xs)) [ none ↦ rest | some x ↦ x ∷ rest ]

  unfoldable pub retained_items : Ring A → List A
  unfolding collect
  retained_items r = if length r.items == 0 then [] else collect r.items r.start (length r.items) 0

  unfoldable pub state : Ring A → ℕ × ℕ
  state r = (r.revision, length r.items)

  unfoldable pub items_since : Ring A → ℕ → Batch A
  items_since r cursor =
      let retained = length r.items in
      let next = r.revision in
      let earliest = (r.revision + u64 - retained) % u64 in
      if retained == 0
      then record { entries = []; next = next; retained = 0; reset = not (cursor == next) }
      else if ltb cursor earliest || ltb r.revision cursor
      then record { entries = retained_items r; next = next; retained = retained; reset = true }
      else record {
        entries = collect r.items r.start (retained - (cursor - earliest)) (cursor - earliest);
        next = next;
        retained = retained;
        reset = false;
      }
