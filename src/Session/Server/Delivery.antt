-- ===== src/Session/Server/Delivery.antt =====
-- What the stream of one client holds.
use process_deck.Base.{
  ◌≤◌, ◌<◌, ◌≡◌, refl, sym, ap, ◌∙◌, subst, Bool, true, false, List, [], ◌∷◌, ◌++◌, none, some,
  length, append_assoc, append-nil, arith, length-append, Bool-cases, inl, inr,
}
use process_deck.Supervisor.{Event}
use process_deck.Session.{Response, Message, encode_event, event_buffer_size}
use process_deck.Session.Server.{Attachment, is_stopped, write_next}
use process_deck.Session.Server.Messages.{
  events_of, NoneFinished, FinishedLast, events_of-append, NoneFinished-append, FinishedLast-concat,
  FinishedLast-cons, NoneFinished-last, IsRun, IsRun-log, IsRun-attached, IsRun-missed, IsRun-event,
}

-- The stream of a client with its queue: a run of the events, a bounded queue, and no message behind
-- the one with the result, which comes only when the session closes.
pub record IsDelivery (message : Message) (taken : List Event) (closing attached : Bool)
    (a : Attachment) : Type 0 where
  pub bounded : length a.queue ≤ event_buffer_size
  pub in_order : IsRun message taken attached (a.sent ++ a.queue)
  pub last : FinishedLast (a.sent ++ a.queue)
  pub unfinished : closing ≡ false → NoneFinished (a.sent ++ a.queue)
  pub first_answer : (a.initial.event ≡ none) × (a.initial.finished ≡ false)
  pub not_greeted : a.greeted ≡ false → a.sent ≡ []
  pub was_greeted : a.greeted ≡ true → (rest : List Response) × (a.sent ≡ a.initial ∷ rest)

module _ {message : Message} {taken : List Event} {closing attached : Bool} {a : Attachment}
    (d : IsDelivery message taken closing attached a) where
  pub IsDelivery-attached :
      {other : Bool} → (other ≡ true → attached ≡ true) → IsDelivery message taken closing other a
  IsDelivery-attached weaker = record {
    bounded = d.bounded;
    in_order = IsRun-attached d.in_order weaker;
    last = d.last;
    unfinished = d.unfinished;
    first_answer = d.first_answer;
    not_greeted = d.not_greeted;
    was_greeted = d.was_greeted;
  }

  pub IsDelivery-closing : IsDelivery message taken true attached a
  IsDelivery-closing = record {
    bounded = d.bounded;
    in_order = d.in_order;
    last = d.last;
    unfinished = λ h. cc;
    first_answer = d.first_answer;
    not_greeted = d.not_greeted;
    was_greeted = d.was_greeted;
  }

  pub IsDelivery-closed : IsDelivery message taken closing attached (record a { closed = true })
  IsDelivery-closed = record {
    bounded = d.bounded;
    in_order = d.in_order;
    last = d.last;
    unfinished = d.unfinished;
    first_answer = d.first_answer;
    not_greeted = d.not_greeted;
    was_greeted = d.was_greeted;
  }

  -- Events that do not reach the queue.
  pub IsDelivery-taken :
      (e : Event)
      → (attached ≡ true → is_stopped e.kind ≡ true)
      → IsDelivery message (taken ++ e ∷ []) closing attached a
  IsDelivery-taken e stopped = record {
    bounded = d.bounded;
    in_order = elim (Bool-cases attached) [
      | inl here ↦ IsRun-event d.in_order e here (rw (stopped here) (sym (append-nil _)))
      | inr away ↦ IsRun-missed d.in_order e away
    ];
    last = d.last;
    unfinished = d.unfinished;
    first_answer = d.first_answer;
    not_greeted = d.not_greeted;
    was_greeted = d.was_greeted;
  }

  pub IsDelivery-greeted :
      a.greeted ≡ false
      → IsDelivery message taken closing attached
          (record a { greeted = true; sent = a.sent ++ a.initial ∷ [] })
  IsDelivery-greeted waits =
      let empty = d.not_greeted waits in
      let old = ap (λ l. l ++ a.queue) empty in
      let new = ap (λ l. (l ++ a.initial ∷ []) ++ a.queue) empty in
      record {
        bounded = d.bounded;
        in_order =
            IsRun-log d.in_order
              (ap events_of new ∙ rw (d.first_answer.0) refl ∙ ap events_of (sym old));
        last =
            subst FinishedLast (sym new) (
              FinishedLast-cons a.initial a.queue d.first_answer.1 (subst FinishedLast old d.last));
        unfinished = λ h.
            subst NoneFinished (sym new)
              (d.first_answer.1, subst NoneFinished old (d.unfinished h));
        first_answer = d.first_answer;
        not_greeted = λ h. cc;
        was_greeted = λ h. ([], ap (λ l. l ++ a.initial ∷ []) empty);
      }

  pub IsDelivery-write_next :
      a.greeted ≡ true → IsDelivery message taken closing attached (write_next a)
  unfolding write_next
  IsDelivery-write_next greeted = written a.queue refl
    where
      written :
          (queue : List Response)
          → a.queue ≡ queue
          → IsDelivery message taken closing attached (elim queue [
            | [] ↦ a
            | m ∷ rest ↦ record a { queue = rest; sent = a.sent ++ m ∷ [] }
          ])
      written [] e = d
      written (m ∷ rest) e =
          let log : a.sent ++ a.queue ≡ (a.sent ++ m ∷ []) ++ rest =
            ap (λ l. a.sent ++ l) e ∙ sym (append_assoc a.sent (m ∷ []) rest) in
          record {
            bounded = omega (arith, ap length e, d.bounded);
            in_order = IsRun-log d.in_order (ap events_of (sym log));
            last = subst FinishedLast log d.last;
            unfinished = λ h. subst NoneFinished log (d.unfinished h);
            first_answer = d.first_answer;
            not_greeted = λ h. cc;
            was_greeted = λ h.
                let (written, first) = d.was_greeted greeted in
                (written ++ m ∷ [], ap (λ l. l ++ m ∷ []) first);
          }

  module _ (m : Response) (open_yet : closing ≡ false)
      (room : length a.queue < event_buffer_size) where
    abbrev queued : Attachment
    queued = record a { queue = a.queue ++ m ∷ [] }

    log-queued : queued.sent ++ queued.queue ≡ (a.sent ++ a.queue) ++ m ∷ []
    log-queued = sym (append_assoc a.sent a.queue (m ∷ []))

    events-queued :
        events_of (queued.sent ++ queued.queue)
        ≡ events_of (a.sent ++ a.queue) ++ events_of (m ∷ [])
    events-queued = ap events_of log-queued ∙ events_of-append (a.sent ++ a.queue) (m ∷ [])

    bounded-queued : length queued.queue ≤ event_buffer_size
    bounded-queued = omega (arith, length-append {0} a.queue (m ∷ []))

    -- An event reaches the queue of the client that is attached.
    pub IsDelivery-event :
        (e : Event)
        → is_stopped e.kind ≡ false
        → attached ≡ true
        → m.event ≡ some (encode_event message e)
        → m.finished ≡ false
        → IsDelivery message (taken ++ e ∷ []) closing attached queued
    IsDelivery-event e passes here carries going =
        let none_finished : NoneFinished (queued.sent ++ queued.queue) =
          subst NoneFinished (sym log-queued) (
            NoneFinished-append (a.sent ++ a.queue) (m ∷ []) (d.unfinished open_yet) (going, tt)) in
        record {
          bounded = bounded-queued;
          in_order =
              IsRun-event d.in_order e here
                (events-queued ∙ ap (λ l. events_of (a.sent ++ a.queue) ++ l) (ground arith));
          last = NoneFinished-last _ none_finished;
          unfinished = λ h. none_finished;
          first_answer = d.first_answer;
          not_greeted = d.not_greeted;
          was_greeted = d.was_greeted;
        }

    -- The last message.
    pub IsDelivery-finished : m.event ≡ none → IsDelivery message taken true attached queued
    IsDelivery-finished none_event = record {
      bounded = bounded-queued;
      in_order = IsRun-log d.in_order (events-queued ∙ rw none_event (append-nil _));
      last =
          subst FinishedLast (sym log-queued)
            (FinishedLast-concat (a.sent ++ a.queue) m (d.unfinished open_yet) none_event);
      unfinished = λ h. cc;
      first_answer = d.first_answer;
      not_greeted = d.not_greeted;
      was_greeted = d.was_greeted;
    }

-- A client that has just been attached.
pub IsDelivery-new :
    (message : Message) (taken : List Event) (closing attached : Bool) (initial : Response)
    → initial.event ≡ none
    → initial.finished ≡ false
    → IsDelivery message taken closing attached
        (record { queue = []; closed = false; initial = initial; greeted = false; sent = [] })
IsDelivery-new message taken closing attached initial none_event unfinished = record {
  bounded = omega arith;
  in_order = record {
    before = taken;
    mine = [];
    after = [];
    run = sym (append-nil taken);
    events = refl;
    current = λ h. refl;
  };
  last = tt;
  unfinished = λ h. tt;
  first_answer = (none_event, unfinished);
  not_greeted = λ h. refl;
  was_greeted = λ h. cc;
}
