-- ===== src/Session/Client/Reading.antt =====
-- What a client has read of the stream that the server sends it.
use process_deck.Base.{
  ℕ, ◌≡◌, refl, sym, ap, ap₂, ◌∙◌, true, false, List, [], ◌∷◌, ◌++◌, none, some, if◌then◌else◌, map,
  arith, append_assoc, append-nil, drop, subst, option_ind, if_ind,
}
use mathlib.Core.List.{map-append}
use process_deck.Config.Validate.{ParseDuration}
use process_deck.Supervisor.Inv.{IsValid}
use process_deck.Base.Text.{Text, same}
use process_deck.Supervisor.{SupError, Event, Sup}
use process_deck.Session.{Response, Received, Message, decode, decode-encode_event}
use process_deck.Session.Server.{is_stopped, is_active, Server}
use process_deck.Session.Server.Steps.{Reach, initial_server}
use process_deck.Session.Server.Reached.{Reach-IsDelivery}
use process_deck.Session.Server.Messages.{
  events_of, events_of-append, events_of-none, events_of-some, passed_on, FinishedLast,
  FinishedLast-tail, FinishedLast-front, FinishedLast-alone,
}
use process_deck.Session.Client.{Client, read, set_error, keep_snapshots, finish}

-- An event as it reaches a client.
abbrev pub received : Message → Event → Received
received message e = record {
  event = record e { error = none };
  error = elim e.error [ none ↦ none | some error ↦ some (message error) ];
}

-- All events but the last one of the supervisor.
abbrev pub live : List Event → List Event
live [] = []
live (e ∷ es) = if is_stopped e.kind then live es else e ∷ live es

map-passed_on :
    (message : Message) (es : List Event)
    → ((error : SupError) → same (message error) [] ≡ false)
    → map decode (passed_on message es) ≡ map (received message) (live es)
map-passed_on message [] spoken = refl
map-passed_on message (e ∷ es) spoken =
    ground (arith, decode-encode_event message e spoken, map-passed_on message es spoken)

set_error-events : (reason : Text) (c : Client) → (set_error reason c).events ≡ c.events
unfolding set_error
set_error-events reason c = ground arith

keep_snapshots-kept :
    (m : Response) (c : Client)
    → ((keep_snapshots m c).events ≡ c.events) × ((keep_snapshots m c).closed ≡ c.closed)
unfolding keep_snapshots
keep_snapshots-kept m c = ground arith

finish-events : (m : Response) (c : Client) → (finish m c).events ≡ c.events
unfolding finish
finish-events m c = ground (arith, set_error-events m.error c)

-- A client that stays connected has the events of all messages.
pub read-events :
    (ms : List Response) (lost : Text) (c : Client)
    → FinishedLast ms
    → c.closed ≡ false
    → (read ms lost c).events ≡ c.events ++ map decode (events_of ms)
unfolding read
read-events [] lost c f open_yet = set_error-events lost c ∙ sym (append-nil c.events)
read-events (m ∷ ms) lost c f open_yet =
    let c1 = keep_snapshots m c in
    let (events, closed) = keep_snapshots-kept m c in
    let rest_last = FinishedLast-tail (m ∷ []) ms f in
    let P = λ (r : Client). r.events ≡ c.events ++ map decode (events_of (m ∷ ms)) in
    if_ind P m.finished
      (λ last.
        let (alone, quiet) = FinishedLast-alone m ms f last in
        finish-events m c1
        ∙ events
        ∙ sym (append-nil c.events)
        ∙ ap (λ l. c.events ++ map decode l) (sym (events_of-none m ms quiet ∙ ap events_of alone)))
      (λ going.
        option_ind P m.event
          (λ quiet.
            read-events ms lost c1 rest_last (closed ∙ open_yet)
            ∙ ap₂ (λ a b. a ++ map decode b) events (sym (events_of-none m ms quiet)))
          (λ wire carries.
            if_ind P c1.closed (λ shut. absurd (ground arith))
              (λ on.
                read-events ms lost (record c1 { events = c1.events ++ decode wire ∷ [] }) rest_last
                  on
                ∙ append_assoc c1.events (decode wire ∷ []) (map decode (events_of ms))
                ∙ ap₂ (λ a b. a ++ map decode b) events (sym (events_of-some m ms carries)))))

-- What a client that stays connected has received, and what waits for it in its queue, are together the
-- events of the supervisor, each once and in order, from some event on; up to the newest event while
-- the client is attached. They arrive unchanged, but for their errors, of which the messages arrive.
pub read-received :
    (parse : ParseDuration) (join : Text → Text → Text) (message : Message) {sup : Sup} {s : Server}
    → ((error : SupError) → same (message error) [] ≡ false)
    → IsValid sup
    → Reach parse join message (initial_server sup) s
    → (id : ℕ) → (s.attachments id).greeted ≡ true
    → (lost : Text) (c : Client) → c.events ≡ []
    → c.closed ≡ false
    → let a = s.attachments id in
      (before : List Event) × (mine : List Event) × (after : List Event) × (s.taken
        ≡ before ++ (mine ++ after))
      × (is_active s.active id ≡ true → after ≡ [])
      × ((read (drop 1 a.sent) lost c).events ++ map decode (events_of a.queue)
          ≡ map (received message) (live mine))
read-received parse join message {sup} {s} spoken v r id greeted lost c fresh open_yet =
    let a = s.attachments id in
    let d = (Reach-IsDelivery parse join message v r).0 id in
    let (written, first) = d.was_greeted greeted in
    let run = d.in_order in
    let f : FinishedLast a.sent = FinishedLast-front a.sent a.queue d.last in
    let f' : FinishedLast (drop 1 a.sent) =
      subst (λ l. FinishedLast l → FinishedLast (drop 1 l)) (sym first)
        (FinishedLast-tail (a.initial ∷ []) written) f in
    let same_events : events_of (drop 1 a.sent) ≡ events_of a.sent =
      subst (λ l. events_of (drop 1 l) ≡ events_of l) (sym first)
        (sym (events_of-none a.initial written d.first_answer.0)) in
    (
      run.before,
      run.mine,
      run.after,
      run.run,
      run.current,
      ap (λ l. l ++ map decode (events_of a.queue))
            (read-events (drop 1 a.sent) lost c f' open_yet
              ∙ ap₂ (λ l m. l ++ map decode m) fresh same_events)
          ∙ sym (map-append decode (events_of a.sent) (events_of a.queue))
          ∙ ap (map decode) (sym (events_of-append a.sent a.queue) ∙ run.events)
          ∙ map-passed_on message run.mine spoken,
    )
