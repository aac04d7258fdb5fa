-- ===== src/LogBuf/Inv.antt =====
-- The well-formedness of a ring.
use process_deck.Base.{
  ◌^◌, ◌≤◌, ◌<◌, ◌≡◌, refl, ◌⊎◌, inl, [], ◌∷◌, length, length-append, length-set, arith,
}
use process_deck.Base.Int.{ℤ, pos_part}
use process_deck.LogBuf.{Ring, u64, new, add}

-- A slot of the array is used only from the start on, the ring turns only when it is full, and the
-- revision counts at least the retained items. The limit is an `int`.
pub record IsValid {ℓ} {A : Type ℓ} (r : Ring A) : Type ℓ where
  pub bounded : length r.items ≤ pos_part r.limit
  pub turned : (r.start ≡ 0) ⊎ (length r.items ≡ pos_part r.limit)
  pub start_in : (r.start ≡ 0) ⊎ (r.start < pos_part r.limit)
  pub counted : length r.items ≤ r.revision
  pub small : r.revision < u64
  pub limit_small : pos_part r.limit < 2 ^ 63

module _ {ℓ} {A : Type ℓ} where
  -- A new ring is valid for every limit that an `int` can hold.
  pub new-IsValid : (limit : ℤ) → pos_part limit < 2 ^ 63 → IsValid (new {A = A} limit)
  unfolding new
  new-IsValid limit h = record {
    bounded = omega arith;
    turned = inl refl;
    start_in = inl refl;
    counted = omega arith;
    small = omega arith;
    limit_small = h;
  }

  -- `Add` keeps a ring well-formed, whatever its limit is.
  pub add-IsValid : {r : Ring A} (x : A) → IsValid r → IsValid (add r x)
  unfolding add
  add-IsValid {r} x v = ground (arith, length-append r.items (x ∷ []), length-set r.items r.start x)
