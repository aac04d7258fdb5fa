-- ===== src/Runner/Logs/Open.antt =====
-- The records sent for a line that is still being read, and for one that ends.
use native.Mathlib.Decide.{dec_lt}
use process_deck.Base.{
  ℕ, ◌≤◌, ◌<◌, ◌≡◌, ◌≢◌, refl, sym, ap, ap₂, ◌∙◌, List, [], ◌∷◌, ◌++◌, length, arith, length-append,
  append_assoc, append-nil, subst,
}
use process_deck.Base.Utf8.{Bytes, IsUtf8}
use process_deck.Runner.Logs.Pieces.{All, All-append, join, join-append, Fits, Splits}
use process_deck.Runner.Logs.Lines.{strip_cr, strip_cr-append, strip_cr_iff}

-- The records of one line: at least one, none longer than the limit, together the line, and each of
-- them valid UTF-8 if the line is.
pub record IsPiecesOf (limit : ℕ) (line : Bytes) (pieces : List Bytes) : Type 0 where
  pub some_piece : pieces ≢ []
  pub whole : join pieces ≡ line
  pub fits : Fits limit pieces
  pub valid : IsUtf8 line → All IsUtf8 pieces

-- The records `sent` for the line that began with `current`, and the bytes still pending.
pub record Open (limit : ℕ) (current : Bytes) (sent : List Bytes) (pending : Bytes) : Type 0 where
  pub whole : join sent ++ pending ≡ current
  pub fits : Fits limit sent
  pub pending_fits : length pending ≤ limit
  pub pending_pos : 0 < length current → 0 < length pending
  pub none_sent : length current ≡ 0 → sent ≡ []
  pub valid :
      (suffix : Bytes) → IsUtf8 (current ++ suffix) → All IsUtf8 sent × IsUtf8 (pending ++ suffix)

pub Open-nil : (limit : ℕ) → Open limit [] [] []
Open-nil limit = record {
  whole = refl;
  fits = tt;
  pending_fits = omega arith;
  pending_pos = λ h. h;
  none_sent = λ h. refl;
  valid = λ suffix u. (tt, u);
}

module _ (limit : ℕ) (pos : 4 < limit) {current pending : Bytes} {sent : List Bytes}
    (o : Open limit current sent pending) (part : Bytes) where
  abbrev joined : Bytes
  joined = pending ++ part

  pub line_so_far : join sent ++ joined ≡ current ++ part
  line_so_far = sym (append_assoc (join sent) pending part) ∙ ap (λ t. t ++ part) o.whole

  length-joined : 0 < length (current ++ part) → 0 < length joined
  length-joined h =
      let grown = length-append {0} current part in
      let grown' = length-append {0} pending part in ground (arith, o.pending_pos, grown, grown')

  strip_line : strip_cr (current ++ part) ≡ join sent ++ strip_cr joined
  strip_line = elim (dec_lt 0 (length joined)) [
    | yes content ↦ ap strip_cr (sym line_so_far) ∙ strip_cr-append (join sent) joined content
    | no empty ↦
        let nothing : sent ≡ [] =
          o.none_sent (ground (arith, o.pending_pos, length-append {0} pending part)) in
        ap strip_cr (sym line_so_far ∙ ap (λ l. join l ++ joined) nothing)
        ∙ ap (λ l. join l ++ strip_cr joined) (sym nothing)
  ]

  -- Behind a full buffer.
  pub Open-split :
      {result : List Bytes × Bytes}
      → Splits limit joined result
      → Open limit (current ++ part) (sent ++ result.0) result.1
  Open-split {result} s = record {
    whole =
        ap (λ t. t ++ result.1) (join-append sent result.0)
        ∙ append_assoc (join sent) (join result.0) result.1
        ∙ ap (λ t. join sent ++ t) s.whole
        ∙ line_so_far;
    fits = All-append (λ r. length r ≤ limit) sent result.0 o.fits s.fits;
    pending_fits = s.rest_fits;
    pending_pos = λ h. s.rest_pos (length-joined h);
    none_sent = λ h.
        ap₂ (λ a b. a ++ b) (o.none_sent (omega (arith, length-append {0} current part)))
          (s.none_sent
            (omega (arith, ap length line_so_far, length-append {0} (join sent) joined)));
    valid = λ suffix u.
        let (sent_ok, joined_ok) =
          o.valid (part ++ suffix) (subst IsUtf8 (append_assoc current part suffix) u) in
        let (records_ok, rest_ok) =
          s.valid suffix (subst IsUtf8 (sym (append_assoc pending part suffix)) joined_ok) in
        (All-append IsUtf8 sent result.0 sent_ok records_ok, rest_ok);
  }

  -- At the end of the line.
  pub IsPiecesOf-split :
      {result : List Bytes × Bytes}
      → Splits limit (strip_cr joined) result
      → IsPiecesOf limit (strip_cr (current ++ part)) (sent ++ (result.0 ++ result.1 ∷ []))
  IsPiecesOf-split {result} s = record {
    some_piece = λ e. omega (
      arith,
      ap length e,
      length-append {0} sent (result.0 ++ result.1 ∷ []),
      length-append {0} result.0 (result.1 ∷ []),
    );
    whole =
        join-append sent (result.0 ++ result.1 ∷ [])
        ∙ ap (λ t. join sent ++ t)
            (join-append result.0 (result.1 ∷ [])
              ∙ ap (λ t. join result.0 ++ t) (append-nil result.1)
              ∙ s.whole)
        ∙ sym strip_line;
    fits =
        All-append (λ r. length r ≤ limit) sent _ o.fits
          (All-append (λ r. length r ≤ limit) result.0 _ s.fits (s.rest_fits, tt));
    valid = λ u.
        let (sent_ok, joined_ok) = o.valid part ((strip_cr_iff (current ++ part)).1 u) in
        let (records_ok, rest_ok) =
          s.valid [] (
            subst IsUtf8 (sym (append-nil (strip_cr joined)))
              ((strip_cr_iff joined).0 joined_ok)) in
        All-append IsUtf8 sent _ sent_ok (
          All-append IsUtf8 result.0 _ records_ok (subst IsUtf8 (append-nil result.1) rest_ok, tt));
  }
