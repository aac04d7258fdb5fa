-- ===== src/Tui/Update/Selection/Kept.antt =====
-- That the log cache of internal/tui/model.go leaves the table and the selected row as they are.
use process_deck.Base.{
  ℕ, ◌+◌, ◌-◌, ◌%◌, ◌==◌, ltb, ◌≡◌, not, ◌||◌, List, [], ◌∷◌, Option, length, if◌then◌else◌, if_ind,
  option_ind,
}
use process_deck.Base.Text.{Text, same}
use process_deck.LogBuf.{Batch, u64}
use process_deck.Supervisor.{Event, LogEntry}
use process_deck.Supervisor.Lifecycle.{Snapshot}
use process_deck.Tui.{Model, Measures, Source, selected_process}
use process_deck.Tui.Numbers.{min_int}
use process_deck.Tui.Cache.{
  drop_cached_log_lines, append_cached_log_line, append_all, apply_log_batch, reset_log_cache,
  clear_cached_log_lines, fetch_log_batch, sync_log_cache, push_log_event, apply_log_event,
}

-- What the log cache leaves as it is.
pub record Keeps (selected : ℕ) (snapshots : List Snapshot) (m : Model) : Type 0 where
  pub row : m.selected ≡ selected
  pub table : m.snapshots ≡ snapshots

module _ {selected : ℕ} {snapshots : List Snapshot} where
  pub drop_cached-Keeps :
      (m : Model) (n : ℕ)
      → Keeps selected snapshots m
      → Keeps selected snapshots (drop_cached_log_lines m n)
  unfolding drop_cached_log_lines
  drop_cached-Keeps m n k =
      if_ind (Keeps selected snapshots) (min_int n (length m.log_lines) == 0) (λ _. k)
        (λ _. record { row = k.row; table = k.table })

  pub clear-Keeps :
      (m : Model) → Keeps selected snapshots m → Keeps selected snapshots (clear_cached_log_lines m)
  unfolding clear_cached_log_lines
  clear-Keeps m k = record { row = k.row; table = k.table }

  module _ (measures : Measures) where
    append_all-Keeps :
        (es : List LogEntry) (m : Model)
        → Keeps selected snapshots m
        → Keeps selected snapshots (append_all measures m es)
    unfolding append_all append_cached_log_line
    append_all-Keeps [] m k = k
    append_all-Keeps (e ∷ es) m k = append_all-Keeps es _ (record { row = k.row; table = k.table })

    apply_log_batch-Keeps :
        (m : Model) (batch : Batch LogEntry)
        → Keeps selected snapshots m
        → Keeps selected snapshots (apply_log_batch measures m batch)
    unfolding apply_log_batch
    apply_log_batch-Keeps m batch k =
        let first = if_ind (Keeps selected snapshots) batch.reset (λ _. clear-Keeps m k) (λ _. k) in
        let last =
          drop_cached-Keeps _ _ (append_all-Keeps batch.entries _ (drop_cached-Keeps _ _ first)) in
        record { row = last.row; table = last.table }

    fetch_log_batch-Keeps :
        (sup : Source) (m : Model) (name : Text)
        → Keeps selected snapshots m
        → Keeps selected snapshots (fetch_log_batch measures sup m name)
    unfolding fetch_log_batch
    fetch_log_batch-Keeps sup m name k =
        let applied = apply_log_batch-Keeps m _ k in
        record { row = applied.row; table = applied.table }

    pub sync_log_cache-Keeps :
        (supervisor : Option Source) (m : Model)
        → Keeps selected snapshots m
        → Keeps selected snapshots (sync_log_cache measures supervisor m)
    unfolding sync_log_cache reset_log_cache
    sync_log_cache-Keeps supervisor m k =
        let name = selected_process m in
        let m1 = if same name m.log_process then m else reset_log_cache measures m name in
        let first : Keeps selected snapshots m1 =
          if_ind (Keeps selected snapshots) (same name m.log_process) (λ _. k)
            (λ _. clear-Keeps _ (record { row = k.row; table = k.table })) in
        option_ind (Keeps selected snapshots) supervisor (λ _. first)
          λ sup _.
            if_ind (Keeps selected snapshots) (same name [] || not m1.log_sync_needed) (λ _. first)
              (λ _. fetch_log_batch-Keeps sup m1 name first)

    push-Keeps :
        (m : Model) (event : Event)
        → Keeps selected snapshots m
        → Keeps selected snapshots (push_log_event measures m event)
    unfolding push_log_event append_cached_log_line
    push-Keeps m event k =
        let dropped = drop_cached-Keeps m _ k in
        let last = drop_cached-Keeps _ _ (record { row = dropped.row; table = dropped.table }) in
        record { row = last.row; table = last.table }

    pub apply_log_event-Keeps :
        (supervisor : Option Source) (m : Model) (event : Event)
        → Keeps selected snapshots m
        → Keeps selected snapshots (apply_log_event measures supervisor m event)
    unfolding apply_log_event
    apply_log_event-Keeps supervisor m event k =
        let P = Keeps selected snapshots in
        let again = sync_log_cache-Keeps supervisor _ (record { row = k.row; table = k.table }) in
        if_ind P (not (same event.process (selected_process m))) (λ _. k)
          λ _.
            if_ind P (not event.log_state_valid) (λ _. again)
              λ _.
                if_ind P (ltb event.log_cursor m.log_cursor) (λ _. k)
                  λ _.
                    if_ind P (event.log_cursor == m.log_cursor)
                      (λ _.
                        if_ind P (event.log_retained == length m.log_lines) (λ _. k) (λ _. again))
                      λ _.
                        if_ind P (not (event.log_cursor == (m.log_cursor + 1) % u64)) (λ _. again)
                          λ _.
                            if_ind P (event.log_retained == 0)
                              (λ _.
                                let c = clear-Keeps m k in record { row = c.row; table = c.table })
                              λ _.
                                if_ind P (ltb (length m.log_lines) (event.log_retained - 1))
                                  (λ _. again) (λ _. push-Keeps m event k)
