-- ===== src/Tui/Cache/Sync.antt =====
-- The log cache of internal/tui/model.go against the ring of internal/logbuf/ring.go that it shows.
mod Contents
use process_deck.Base.{
  ℕ, zero, suc, ◌+◌, ◌-◌, ◌%◌, ◌≤◌, ◌<◌, ◌==◌, ltb, ◌≡◌, refl, sym, ap, ◌∙◌, Bool, true, false,
  if_ind, List, [], ◌∷◌, ◌++◌, append-nil, append_assoc, map, Option, if◌then◌else◌, length,
  length-append, length-drop, drop, last_n, drop-append_le, drop-drop, drop_all, arith,
}
use process_deck.Base.Text.{Text, same}
use process_deck.Base.Int.{pos_part}
use process_deck.LogBuf.{Ring, Batch, u64, add, retained_items}
use process_deck.LogBuf.Inv.{IsValid, add-IsValid}
use process_deck.LogBuf.Contents.{retained_items-add, length-retained_items}
use process_deck.LogBuf.Since.{revision-add, length-items-add}
use process_deck.Supervisor.{LogEntry, Event}
use process_deck.Tui.{CachedLogLine, Model, Source, Measures, selected_process}
use process_deck.Tui.Numbers.{min_int}
use process_deck.Tui.Cache.{
  clear_cached_log_lines, drop_cached_log_lines, append_cached_log_line, append_all, cached_line,
  format_log_entry, apply_log_batch, push_log_event, apply_log_event,
}
unfoldable pub use Contents.{contents}
pub use Contents.{
  contents-append, contents-drop, length-contents, drop-min, lines-drop, contents-keep, last_n-fill,
  length-map, wrap_small,
}

module _ (measures : Measures) where
  -- The texts that a list of entries is shown as.
  unfoldable pub formatted : List LogEntry → List Text
  formatted entries = map (format_log_entry measures) entries

  contents-append_cached :
      (m : Model) (e : LogEntry)
      → contents (append_cached_log_line measures m e).log_lines
        ≡ contents m.log_lines ++ (format_log_entry measures e ∷ [])
  unfolding append_cached_log_line cached_line contents
  contents-append_cached m e = contents-append m.log_lines (cached_line measures m e ∷ [])

  contents-append_all :
      (m : Model) (es : List LogEntry)
      → contents (append_all measures m es).log_lines ≡ contents m.log_lines ++ formatted es
  unfolding append_all formatted
  contents-append_all m [] = sym (append-nil (contents m.log_lines))
  contents-append_all m (e ∷ es) =
      contents-append_all (append_cached_log_line measures m e) es
      ∙ ap (λ l. l ++ formatted es) (contents-append_cached m e)
      ∙ append_assoc (contents m.log_lines) (format_log_entry measures e ∷ []) (formatted es)

  -- The cache shows a ring: it has read it up to its revision, and its lines are the retained
  -- entries, formatted, in their order.
  pub record IsInSync (m : Model) (r : Ring LogEntry) : Type 0 where
    pub cursor : m.log_cursor ≡ r.revision
    pub lines : contents m.log_lines ≡ formatted (retained_items r)

  pub length-lines :
      {m : Model} {r : Ring LogEntry}
      → IsInSync m r
      → IsValid r
      → length m.log_lines ≡ length r.items
  unfolding formatted
  length-lines {m} {r} h v =
      sym (length-contents m.log_lines)
      ∙ ap length h.lines
      ∙ length-map (format_log_entry measures) (retained_items r)
      ∙ length-retained_items v

  contents-push :
      (m : Model) (event : Event)
      → contents (push_log_event measures m event).log_lines
        ≡ last_n event.log_retained (
            contents m.log_lines
            ++ (format_log_entry measures
                  (record { stream = event.stream; line = event.line; time = event.time })
                ∷ []))
  unfolding push_log_event
  contents-push m event =
      let e : LogEntry = record { stream = event.stream; line = event.line; time = event.time } in
      let f = format_log_entry measures e in
      let m1 = drop_cached_log_lines m (length m.log_lines - (event.log_retained - 1)) in
      contents-keep (append_cached_log_line measures m1 e) event.log_retained
      ∙ ap (last_n event.log_retained) (
          contents-append_cached m1 e
          ∙ ap (λ l. l ++ (f ∷ [])) (contents-keep m (event.log_retained - 1)))
      ∙ last_n-fill event.log_retained (contents m.log_lines) (f ∷ [])

  contents-cleared :
      (m : Model) (reset : Bool)
      → contents (if reset then clear_cached_log_lines m else m).log_lines
        ≡ (if reset then [] else contents m.log_lines)
  unfolding clear_cached_log_lines contents
  contents-cleared m true = refl
  contents-cleared m false = refl

  pub contents-apply :
      (m : Model) (batch : Batch LogEntry)
      → let before = if batch.reset then [] else contents m.log_lines in
        contents (apply_log_batch measures m batch).log_lines
        ≡ last_n batch.retained (before ++ formatted batch.entries)
  unfolding apply_log_batch formatted
  contents-apply m batch =
      let m1 = if batch.reset then clear_cached_log_lines m else m in
      let existing = batch.retained - length batch.entries in
      let m2 = drop_cached_log_lines m1 (length m1.log_lines - existing) in
      let m3 = append_all measures m2 batch.entries in
      contents-keep m3 batch.retained
      ∙ ap (last_n batch.retained) (
          contents-append_all m2 batch.entries
          ∙ ap (λ l. l ++ formatted batch.entries) (contents-keep m1 existing))
      ∙ ap (λ l. last_n batch.retained (last_n existing l ++ formatted batch.entries))
          (contents-cleared m batch.reset)
      ∙ ap
          (λ n. last_n batch.retained (
            last_n (batch.retained - n) (if batch.reset then [] else contents m.log_lines)
            ++ formatted batch.entries))
          (sym (length-map (format_log_entry measures) batch.entries))
      ∙ last_n-fill batch.retained (if batch.reset then [] else contents m.log_lines)
          (formatted batch.entries)

  apply_log_event-push :
      (supervisor : Option Source) (m : Model) (event : Event)
      → same event.process (selected_process m) ≡ true
      → event.log_state_valid ≡ true
      → event.log_cursor ≡ m.log_cursor + 1
      → m.log_cursor + 1 < u64
      → 0 < event.log_retained
      → event.log_retained ≤ length m.log_lines + 1
      → apply_log_event measures supervisor m event ≡ push_log_event measures m event
  unfolding apply_log_event
  apply_log_event-push supervisor m event chosen valid next small some_kept no_gap =
      ground (arith, wrap_small (m.log_cursor + 1) small)

  pub formatted-drop : (n : ℕ) (es : List LogEntry) → formatted (drop n es) ≡ drop n (formatted es)
  unfolding formatted
  formatted-drop zero es = refl
  formatted-drop (suc n) [] = refl
  formatted-drop (suc n) (e ∷ es) = formatted-drop n es

  pub length-formatted : (es : List LogEntry) → length (formatted es) ≡ length es
  unfolding formatted
  length-formatted es = length-map (format_log_entry measures) es

  pub formatted-append :
      (es fs : List LogEntry) → formatted (es ++ fs) ≡ formatted es ++ formatted fs
  unfolding formatted
  formatted-append [] fs = refl
  formatted-append (e ∷ es) fs = ap (λ l. format_log_entry measures e ∷ l) (formatted-append es fs)

  -- What is retained are the last lines, as many as there are places.
  formatted-add :
      {r : Ring LogEntry} (e : LogEntry)
      → IsValid r
      → formatted (retained_items (add r e))
        ≡ last_n
            (length (add r e).items)
            (formatted (retained_items r) ++ (format_log_entry measures e ∷ []))
  unfolding formatted
  formatted-add {r} e v =
      let whole = retained_items r ++ (e ∷ []) in
      let kept = pos_part r.limit in
      let after = length-retained_items (add-IsValid e v) in
      let all = retained_items-add r e v in
      let place : length (add r e).items ≡ length (last_n kept whole) = sym after ∙ ap length all in
      ap formatted all
      ∙ formatted-drop (length whole - kept) whole
      ∙ ap (λ l. drop (length whole - kept) l) (formatted-append (retained_items r) (e ∷ []))
      ∙ ap (λ k. drop k (formatted (retained_items r) ++ formatted (e ∷ [])))
          (omega (
            arith,
            place,
            length-drop (length whole - kept) whole,
            length-append (retained_items r) (e ∷ []),
            length-append (formatted (retained_items r)) (formatted (e ∷ [])),
            length-map (format_log_entry measures) (retained_items r),
          ))

  -- An entry that the supervisor adds to the ring and sends: the client that shows the ring before
  -- shows the ring after.
  pub event-IsInSync :
      (supervisor : Option Source) (m : Model) (r : Ring LogEntry) (event : Event)
      → same event.process (selected_process m) ≡ true
      → event.log_state_valid ≡ true
      → let e : LogEntry = record { stream = event.stream; line = event.line; time = event.time } in
        event.log_cursor ≡ (add r e).revision
        → event.log_retained ≡ length (add r e).items
        → 0 < pos_part r.limit
        → r.revision + 1 < u64
        → IsValid r
        → IsInSync m r
        → IsInSync (apply_log_event measures supervisor m event) (add r e)
  unfolding push_log_event formatted
  event-IsInSync supervisor m r event chosen valid told held some_place small v h =
      let e : LogEntry = record { stream = event.stream; line = event.line; time = event.time } in
      let next = revision-add r e some_place small in
      let size = length-lines h v in
      let grown = length-items-add r e some_place v in
      rw
        (apply_log_event-push supervisor m event chosen valid (omega (arith, next, h.cursor, told))
          (omega (arith, h.cursor)) (omega (arith, held, grown.0))
          (omega (arith, held, grown.1, size)))
        (record {
          cursor = told;
          lines =
              contents-push m event
              ∙ ap (λ l. last_n event.log_retained (l ++ (format_log_entry measures e ∷ [])))
                  h.lines
              ∙ ap
                  (λ n.
                    last_n n (formatted (retained_items r) ++ (format_log_entry measures e ∷ [])))
                  held
              ∙ sym (formatted-add e v);
        })
