-- ===== src/Runner/Logs/Records.antt =====
-- The records of an output are its lines, cut into pieces.
use process_deck.Base.{
  ℕ, ◌<◌, ◌≡◌, refl, sym, ap, ap₂, ◌∙◌, true, false, List, [], ◌∷◌, ◌++◌, Option, none, some,
  if◌then◌else◌, ltb, length, arith, length-append, append_assoc, append-nil, subst, if_ind,
}
use process_deck.Base.Text.{Text}
use process_deck.Base.GoStrings.{contains_char}
use process_deck.Base.Utf8.{Bytes}
use process_deck.Runner.Logs.{
  Slice, ReadError, buffer_full, eof, read_error, split_pending, ends_read, scan_slice, scan_from,
  scan_lines, max_log_line_bytes,
}
use process_deck.Runner.Logs.Pieces.{join, Splits, split_pending-Splits}
use process_deck.Runner.Logs.Lines.{
  Returns, at_eof, failing, whole_line, full_buffer, strip_cr, lines_from, lines_from-nil,
  lines_from-line, lines_from-part, last_is-concat, without_last-concat, last_is-newline, slice,
}
use process_deck.Runner.Logs.Open.{
  Open, IsPiecesOf, Open-nil, line_so_far, Open-split, IsPiecesOf-split,
}

pub data Covers (limit : ℕ) : List Bytes → List Bytes → Type 0 where
  no_line : Covers limit [] []
  next_line :
      {line : Bytes} {pieces : List Bytes} {records lines : List Bytes}
      → IsPiecesOf limit line pieces
      → Covers limit records lines
      → Covers limit (pieces ++ records) (line ∷ lines)

abbrev split_all : ℕ → Bytes → List Bytes × Bytes
split_all limit bytes = split_pending (length bytes) limit bytes

scan_slice-full :
    (limit : ℕ) (part pending : Bytes)
    → contains_char part b'\n' ≡ false
    → scan_slice limit (slice part (some buffer_full)) pending ≡ split_all limit (pending ++ part)
unfolding scan_slice
scan_slice-full limit part pending h = rw (last_is-newline part h) refl

scan_slice-line :
    (limit : ℕ) (part pending : Bytes)
    → scan_slice limit (slice (part ++ b'\n' ∷ []) none) pending ≡ (
        let result = split_all limit (strip_cr (pending ++ part)) in
        (result.0 ++ result.1 ∷ [], []))
unfolding scan_slice
scan_slice-line limit part pending =
    rw (last_is-concat b'\n' b'\n' part, without_last-concat part b'\n') refl

scan_slice-end :
    (limit : ℕ) (part pending : Bytes) (e : ReadError)
    → ends_read (some e) ≡ true
    → contains_char part b'\n' ≡ false
    → scan_slice limit (slice part (some e)) pending ≡ (
        let result = split_all limit (strip_cr (pending ++ part)) in
        if ltb 0 (length (pending ++ part)) then (result.0 ++ result.1 ∷ [], []) else result)
unfolding scan_slice
scan_slice-end limit part pending e ends h = rw (last_is-newline part h, ends) refl

split_all-Splits :
    (limit : ℕ) → 4 < limit → (bytes : Bytes) → Splits limit bytes (split_all limit bytes)
split_all-Splits limit pos bytes = split_pending-Splits (length bytes) limit bytes pos (omega arith)

abbrev Scanned :
    ℕ → List Bytes → List Bytes → Option Text → List Bytes × Option (Option Text) → Type 0
Scanned limit sent lines end output = (output.1 ≡ some end) × Covers limit (sent ++ output.0) lines

module _ (limit : ℕ) (pos : 4 < limit) where
  -- The last slice.
  end-Covers :
      {current pending : Bytes} {sent : List Bytes} (part : Bytes) (e : ReadError)
      → ends_read (some e) ≡ true
      → contains_char part b'\n' ≡ false
      → Open limit current sent pending
      → Covers limit
          (sent ++ (scan_slice limit (slice part (some e)) pending).0)
          (lines_from current part)
  end-Covers {current} {pending} {sent} part e ends h o =
      let joined = pending ++ part in
      let result = split_all limit (strip_cr joined) in
      let s = split_all-Splits limit pos (strip_cr joined) in
      let lines : lines_from current part
          ≡ (if ltb 0 (length (current ++ part)) then strip_cr (current ++ part) ∷ [] else []) =
        ap (lines_from current) (sym (append-nil part))
        ∙ lines_from-part current part [] h
        ∙ lines_from-nil (current ++ part) in
      let grown = ap length (line_so_far limit pos o part) in
      let joins = length-append {0} (join sent) joined in
      rw (lines, scan_slice-end limit part pending e ends h)
        (if_ind
          (λ (out : List Bytes × Bytes).
            Covers limit (sent ++ out.0)
              (if ltb 0 (length (current ++ part)) then strip_cr (current ++ part) ∷ [] else []))
          (ltb 0 (length joined))
          (λ content.
            if_ind (Covers limit (sent ++ (result.0 ++ result.1 ∷ [])))
              (ltb 0 (length (current ++ part)))
              (λ some_line.
                subst (λ l. Covers limit l (strip_cr (current ++ part) ∷ []))
                  (append-nil (sent ++ (result.0 ++ result.1 ∷ [])))
                  (next_line (IsPiecesOf-split limit pos o part s) no_line))
              (λ none. absurd (ground (arith, grown, joins))))
          (λ empty.
            let nothing : sent ≡ [] =
              o.none_sent (ground (arith, o.pending_pos, length-append {0} pending part)) in
            let none_split : result.0 ≡ [] = s.none_sent (ground arith) in
            if_ind (Covers limit (sent ++ result.0)) (ltb 0 (length (current ++ part)))
              (λ some_line.
                absurd (ground (arith, grown, joins, ap (λ l. length (join l)) nothing)))
              (λ none.
                subst (λ l. Covers limit l []) (sym (ap₂ (λ a b. a ++ b) nothing none_split))
                  no_line)))

  scan_from-Scanned :
      {slices : List Slice} {bytes : Bytes} {end : Option Text}
      → Returns slices bytes end
      → {current pending : Bytes} {sent : List Bytes} → Open limit current sent pending
      → Scanned limit sent (lines_from current bytes) end (scan_from limit slices pending)
  unfolding scan_from
  scan_from-Scanned (at_eof part h) o = (refl, end-Covers part eof refl h o)
  scan_from-Scanned (failing part {reason} h) o =
      (refl, end-Covers part (read_error reason) refl h o)
  scan_from-Scanned (whole_line part {bytes} {slices} h r) {current} {pending} {sent} o =
      let (ended, covers) = scan_from-Scanned r (Open-nil limit) in
      let s = split_all-Splits limit pos (strip_cr (pending ++ part)) in
      let result = split_all limit (strip_cr (pending ++ part)) in
      rw (scan_slice-line limit part pending, lines_from-line current part bytes h)
        (
          ended,
          subst (λ l. Covers limit l (strip_cr (current ++ part) ∷ lines_from [] bytes))
              (append_assoc sent (result.0 ++ result.1 ∷ []) (scan_from limit slices []).0)
              (next_line (IsPiecesOf-split limit pos o part s) covers),
        )
  scan_from-Scanned (full_buffer part {bytes} {slices} h r) {current} {pending} {sent} o =
      let s = split_all-Splits limit pos (pending ++ part) in
      let result = split_all limit (pending ++ part) in
      let (ended, covers) = scan_from-Scanned r (Open-split limit pos o part s) in
      rw (scan_slice-full limit part pending h, lines_from-part current part bytes h)
        (
          ended,
          subst (λ l. Covers limit l (lines_from (current ++ part) bytes))
              (append_assoc sent result.0 (scan_from limit slices result.1).0) covers,
        )

-- Every output is captured line by line and nothing of it is lost: its records are the lines, without
-- their ends, each in one or more records of at most `MaxLogLineBytes` bytes that together are the
-- line, and no record of a line in valid UTF-8 breaks a character. The loop ends with the reader: by
-- no error at the end of the output, by its error otherwise.
pub scan_lines-Covers :
    {slices : List Slice} {bytes : Bytes} {end : Option Text}
    → Returns slices bytes end
    → ((scan_lines slices).1 ≡ some end)
      × Covers max_log_line_bytes (scan_lines slices).0 (lines_from [] bytes)
unfolding scan_lines max_log_line_bytes
scan_lines-Covers r =
    scan_from-Scanned max_log_line_bytes (omega arith) r (Open-nil max_log_line_bytes)
