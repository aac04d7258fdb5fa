-- ===== src/Main/Headless.antt =====
-- No line of a log is printed twice, and none is left out.
use process_deck.Base.{
  ℕ, ◌≡◌, refl, sym, ap, ◌∙◌, Bool, true, false, ◌&&◌, List, [], ◌∷◌, Option, none, some,
  if◌then◌else◌, leb, arith, if_ind, subst,
}
use process_deck.Base.Text.{Text, same, same_iff}
use process_deck.Session.{Received}
use process_deck.Main.{
  Input, stop, live, closed, Cursors, set_cursor, after_history, is_placed, with_printed,
  headless_event, headless_loop,
}
use process_deck.Main.Places.{
  places, unplaced, Increases, above, AtMost, set_cursor-other, set_cursor-same, unplaced-cons,
  unplaced-placed, after_history-grows, is_mine, places-other, above-passed, above-shown,
}

-- The events that the loop receives before it ends.
unfoldable pub received : Bool → List Input → List Received
received armed [] = []
received armed (closed result ∷ inputs) = []
received armed (stop (some failure) ∷ inputs) =
    let ignored = received armed inputs in if armed then [] else ignored
received armed (stop none ∷ inputs) = received false inputs
received armed (live r ∷ inputs) = r ∷ received armed inputs

module _ (name : Text) where
  -- Printed places lie above the newest that was known, and increase.
  headless_loop-Increases :
      (armed : Bool) (cursors : Cursors) (inputs : List Input)
      → Increases (cursors name) (places name (headless_loop armed cursors inputs).0)
  unfolding headless_loop headless_event
  headless_loop-Increases armed cursors [] = tt
  headless_loop-Increases armed cursors (closed result ∷ inputs) = tt
  headless_loop-Increases armed cursors (stop (some failure) ∷ inputs) =
      if_ind
        (λ (r : List Received × Option (Option Text)). Increases (cursors name) (places name r.0))
        armed (λ on. tt) (λ off. headless_loop-Increases armed cursors inputs)
  headless_loop-Increases armed cursors (stop none ∷ inputs) =
      headless_loop-Increases false cursors inputs
  headless_loop-Increases armed cursors (live r ∷ inputs) =
      let c = r.event.log_cursor in
      let known = cursors r.event.process in
      let P = λ (h : Cursors × Option Received).
        Increases (cursors name)
          (places name (with_printed h.1 (headless_loop armed h.0 inputs)).0) in
      if_ind P (is_placed r.event)
        (λ placed.
          if_ind P (leb c known) (λ old. headless_loop-Increases armed cursors inputs)
            (λ newer.
              let cursors' = set_cursor cursors r.event.process c in
              let rest = headless_loop-Increases armed cursors' inputs in
              if_ind (Increases (cursors name)) (is_placed r.event && same r.event.process name)
                (λ mine.
                  let this : same r.event.process name ≡ true = ground arith in
                  (
                    ground (arith, ap cursors ((same_iff r.event.process name).0 this)),
                    subst (λ n. Increases n (places name (headless_loop armed cursors' inputs).0))
                        (set_cursor-same cursors r.event.process name c this) rest,
                  ))
                (λ other.
                  subst (λ n. Increases n (places name (headless_loop armed cursors' inputs).0))
                    (set_cursor-other cursors r.event.process name c (ground arith)) rest)))
        (λ unplaced_event.
          if_ind (Increases (cursors name)) (is_placed r.event && same r.event.process name)
            (λ mine. absurd (ground arith)) (λ other. headless_loop-Increases armed cursors inputs))

  -- Every place above the newest that was known is printed.
  headless_loop-places :
      (armed : Bool) (cursors : Cursors) (inputs : List Input) (low : ℕ)
      → Increases low (places name (received armed inputs))
      → places name (headless_loop armed cursors inputs).0
        ≡ above (cursors name) (places name (received armed inputs))
  unfolding headless_loop headless_event received
  headless_loop-places armed cursors [] low h = refl
  headless_loop-places armed cursors (closed result ∷ inputs) low h = refl
  headless_loop-places true cursors (stop (some failure) ∷ inputs) low h = refl
  headless_loop-places false cursors (stop (some failure) ∷ inputs) low h =
      headless_loop-places false cursors inputs low h
  headless_loop-places armed cursors (stop none ∷ inputs) low h =
      headless_loop-places false cursors inputs low h
  headless_loop-places armed cursors (live r ∷ inputs) low h =
      let c = r.event.log_cursor in
      let P = λ (h : Cursors × Option Received).
        places name (with_printed h.1 (headless_loop armed h.0 inputs)).0
        ≡ above (cursors name) (places name (r ∷ received armed inputs)) in
      if_ind P (is_placed r.event)
        (λ placed.
          if_ind P (leb c (cursors r.event.process))
            (λ old.
              above-passed name cursors r (received armed inputs) low (ground arith)
                (λ from. headless_loop-places armed cursors inputs from) h)
            (λ newer.
              above-shown name cursors r (received armed inputs)
                (headless_loop armed (set_cursor cursors r.event.process c) inputs).0 low placed
                (ground arith)
                (λ from.
                  headless_loop-places armed (set_cursor cursors r.event.process c) inputs from)
                h))
        (λ unplaced_event.
          let other : is_mine name r ≡ false = ground arith in
          places-other name r (headless_loop armed cursors inputs).0 other
          ∙ headless_loop-places armed cursors inputs low
              (subst (Increases low) (places-other name r (received armed inputs) other) h)
          ∙ ap (above (cursors name)) (sym (places-other name r (received armed inputs) other)))

headless_loop-unplaced :
    (armed : Bool) (cursors : Cursors) (inputs : List Input)
    → unplaced (headless_loop armed cursors inputs).0 ≡ unplaced (received armed inputs)
unfolding headless_loop headless_event received
headless_loop-unplaced armed cursors [] = refl
headless_loop-unplaced armed cursors (closed result ∷ inputs) = refl
headless_loop-unplaced true cursors (stop (some failure) ∷ inputs) = refl
headless_loop-unplaced false cursors (stop (some failure) ∷ inputs) =
    headless_loop-unplaced false cursors inputs
headless_loop-unplaced armed cursors (stop none ∷ inputs) =
    headless_loop-unplaced false cursors inputs
headless_loop-unplaced armed cursors (live r ∷ inputs) =
    let c = r.event.log_cursor in
    let rs = received armed inputs in
    let P = λ (h : Cursors × Option Received).
      unplaced (with_printed h.1 (headless_loop armed h.0 inputs)).0 ≡ unplaced (r ∷ rs) in
    if_ind P (is_placed r.event)
      (λ placed.
        if_ind P (leb c (cursors r.event.process))
          (λ old. headless_loop-unplaced armed cursors inputs ∙ sym (unplaced-placed r rs placed))
          (λ newer.
            let cursors' = set_cursor cursors r.event.process c in
            unplaced-placed r (headless_loop armed cursors' inputs).0 placed
            ∙ headless_loop-unplaced armed cursors' inputs
            ∙ sym (unplaced-placed r rs placed)))
      (λ away.
        unplaced-cons r (headless_loop armed cursors inputs).0 away
        ∙ ap (λ l. r ∷ l) (headless_loop-unplaced armed cursors inputs)
        ∙ sym (unplaced-cons r rs away))

-- Without a terminal interface, when the session sends the lines of a log in order, every line of it is
-- printed once: of each process, the live lines that are printed are all that stand behind what the
-- history has, in the order of the log; and no other event is left out.
pub headless_loop_complete :
    (name : Text) (history : List Received) (inputs : List Input) (low : ℕ)
    → Increases low (places name (received true inputs))
    → let cursors = after_history (λ n. 0) history in
      let newest = cursors name in
      let printed = (headless_loop true cursors inputs).0 in
      let arrived = received true inputs in
      AtMost newest (places name history)
      × Increases newest (places name printed)
      × (places name printed ≡ above newest (places name arrived))
      × (unplaced printed ≡ unplaced arrived)
headless_loop_complete name history inputs low in_order =
    let cursors = after_history (λ n. 0) history in
    (
      (after_history-grows name (λ n. 0) history).1,
      headless_loop-Increases name true cursors inputs,
      headless_loop-places name true cursors inputs low in_order,
      headless_loop-unplaced true cursors inputs,
    )
