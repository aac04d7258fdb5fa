-- ===== src/Runner/Logs/Pieces.antt =====
-- What the inner loop of logs.go makes of the pending bytes of a line.
use process_deck.Base.{
  ℕ, zero, suc, ◌≤◌, ◌<◌, ◌≡◌, refl, sym, ap, ◌∙◌, List, [], ◌∷◌, ◌++◌, ltb, length, take, drop,
  arith, append_assoc, if_ind, ltb→lt, take-append-drop, length-take, length-drop,
}
use process_deck.Base.Utf8.{Bytes, IsUtf8}
use process_deck.Runner.Logs.{cut_point, split_pending}
use process_deck.Runner.Logs.Boundary.{cut_point-IsUtf8, cut_point_bounds}

abbrev pub All {ℓ} : (Bytes → Type ℓ) → List Bytes → Type ℓ
All P [] = Unit
All P (x ∷ xs) = P x × All P xs

abbrev pub join : List Bytes → Bytes
join [] = []
join (x ∷ xs) = x ++ join xs

pub All-append {ℓ} :
    (P : Bytes → Type ℓ) (xs ys : List Bytes) → All P xs → All P ys → All P (xs ++ ys)
All-append P [] ys a b = b
All-append P (x ∷ xs) ys (p, a) b = (p, All-append P xs ys a b)

pub join-append : (xs ys : List Bytes) → join (xs ++ ys) ≡ join xs ++ join ys
join-append [] ys = refl
join-append (x ∷ xs) ys =
    ap (λ t. x ++ t) (join-append xs ys) ∙ sym (append_assoc x (join xs) (join ys))

abbrev pub Fits : ℕ → List Bytes → Type 0
Fits limit records = All (λ r. length r ≤ limit) records

-- Records that are sent for `pending`, and the bytes that stay pending.
pub record Splits (limit : ℕ) (pending : Bytes) (result : List Bytes × Bytes) : Type 0 where
  pub whole : join result.0 ++ result.1 ≡ pending
  pub fits : Fits limit result.0
  pub rest_fits : length result.1 ≤ limit
  pub rest_pos : 0 < length pending → 0 < length result.1
  pub none_sent : length pending ≤ limit → result.0 ≡ []
  pub valid :
      (suffix : Bytes)
      → IsUtf8 (pending ++ suffix)
      → All IsUtf8 result.0 × IsUtf8 (result.1 ++ suffix)

pub split_pending-Splits :
    (fuel limit : ℕ) (pending : Bytes)
    → 4 < limit
    → length pending ≤ fuel
    → Splits limit pending (split_pending fuel limit pending)
unfolding split_pending
split_pending-Splits zero limit pending pos enough = record {
  whole = refl;
  fits = tt;
  rest_fits = omega arith;
  rest_pos = λ h. h;
  none_sent = λ h. refl;
  valid = λ suffix u. (tt, u);
}
split_pending-Splits (suc fuel) limit pending pos enough =
    let bounds = cut_point_bounds limit pending in
    if_ind (Splits limit pending) (ltb limit (length pending))
      (λ long.
        let s =
          split_pending-Splits fuel limit (drop (cut_point limit pending) pending) pos
            (omega (arith, length-drop {0} (cut_point limit pending) pending)) in
        record {
          whole =
              append_assoc (take (cut_point limit pending) pending)
                (join (split_pending fuel limit (drop (cut_point limit pending) pending)).0)
                (split_pending fuel limit (drop (cut_point limit pending) pending)).1
              ∙ ap (λ t. take (cut_point limit pending) pending ++ t) s.whole
              ∙ take-append-drop (cut_point limit pending) pending;
          fits = (omega (arith, length-take {0} (cut_point limit pending) pending), s.fits);
          rest_fits = s.rest_fits;
          rest_pos = λ h.
              s.rest_pos
                (omega (arith, length-drop {0} (cut_point limit pending) pending, ltb→lt _ _ long));
          none_sent = λ h. absurd (omega (arith, ltb→lt _ _ long));
          valid = λ suffix u.
              let (front_ok, behind_ok) =
                cut_point-IsUtf8 limit pending suffix (ltb→lt _ _ long) u in
              let (records_ok, rest_ok) = s.valid suffix behind_ok in
              ((front_ok, records_ok), rest_ok);
        })
      (λ short. record {
        whole = refl;
        fits = tt;
        rest_fits = ground arith;
        rest_pos = λ h. h;
        none_sent = λ h. refl;
        valid = λ suffix u. (tt, u);
      })
