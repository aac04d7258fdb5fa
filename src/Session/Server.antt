-- ===== src/Session/Server.antt =====
-- internal/session/server.go: the attachment of clients, the queue of each, and the requests. A step of
-- the writer of an attachment is a value here: what it has written to its connection is `sent`.
pub mod Handle
pub mod Steps
pub mod Messages
pub mod Delivery
pub mod Ordered
pub mod Reached
use process_deck.Base.{
  ℕ, suc, ◌+◌, Bool, true, false, not, ◌&&◌, ◌||◌, List, [], ◌∷◌, ◌++◌, Option, none, some, ◌==◌,
  if◌then◌else◌, ltb, length, map,
}
use process_deck.Base.Text.{Text, codes, same}
use process_deck.LogBuf.{Batch}
use process_deck.Supervisor.{
  Sup, SupError, EventKind, state_changed, process_started, process_exited, restart_scheduled,
  log_line, process_skipped, supervisor_error, supervisor_stopped, Event,
}
use process_deck.Supervisor.Lifecycle.{Snapshot, snapshot, logs_since}
use process_deck.Session.{
  Request, Response, Message, protocol_version, event_buffer_size, error_text, encode_event,
}

abbrev pub empty_response : Response
empty_response = record {
  version = 0;
  error = [];
  reattached = false;
  snapshots = none;
  history = [];
  logs = none;
  event = none;
  finished = false;
}

-- `closed` is the channel `done`; `initial` and `greeted` are the first answer of `attach` and whether
-- it was written.
pub record Attachment : Type 0 where
  pub queue : List Response
  pub closed : Bool
  pub initial : Response
  pub greeted : Bool
  pub sent : List Response

-- A channel that is only closed; closing it twice is a panic.
pub data Signal : Type 0 where
  opened closed_once panicked : Signal

abbrev pub close_signal : Signal → Signal
close_signal opened = closed_once
close_signal other = panicked

-- Where `serve` is: before the first attachment, in the loop over the events, behind the last response,
-- and behind the close of `done`.
pub data Phase : Type 0 where
  waiting running ended shut : Phase

-- `taken` are the events that the loop of `serve` has received.
pub record Server : Type 0 where
  pub sup : Sup
  pub attachments : ℕ → Attachment
  pub next : ℕ
  pub active : Option ℕ
  pub started : Bool
  pub start : Signal
  pub closing : Bool
  pub phase : Phase
  pub taken : List Event

abbrev pub update : (ℕ → Attachment) → ℕ → Attachment → ℕ → Attachment
update attachments id a j = if j == id then a else attachments j

-- `s.active == client`
abbrev pub is_active : Option ℕ → ℕ → Bool
is_active none id = false
is_active (some other) id = other == id

-- `s.active != nil`
abbrev pub is_attached : Option ℕ → Bool
is_attached none = false
is_attached (some id) = true

abbrev pub already_attached : Text
already_attached = codes "runtime error: session is already attached to another procdeck client"

abbrev pub stopping_text : Text
stopping_text = codes "runtime error: session is stopping; retry after it has stopped"

-- The first answer to a client, and the retained logs of every process of the snapshots.
unfoldable pub initial_response : Server → Response
unfolding snapshot logs_since
initial_response s = record empty_response {
  version = protocol_version;
  reattached = s.started;
  snapshots = some (snapshot s.sup);
  history = map (λ p. (p.name, logs_since s.sup p.name 0)) (snapshot s.sup);
}

-- The first critical section of `attach`, with the answer of a refusal.
unfoldable pub attach_begin : Server → Server × Option Response
unfolding initial_response
attach_begin s =
    if s.closing || is_attached s.active
    then (
      s,
      some
          (record empty_response { error = if s.closing then stopping_text else already_attached }),
    )
    else (
      record s {
        attachments = update s.attachments s.next (record {
          queue = [];
          closed = false;
          initial = initial_response s;
          greeted = false;
          sent = [];
        });
        next = s.next + 1;
        active = some s.next;
      },
      none,
    )

-- The first answer is written, and the second critical section of `attach`.
unfoldable pub attach_greeted : ℕ → Server → Server
attach_greeted id s =
    let a = s.attachments id in
    let s1 = record s {
      attachments =
          update s.attachments id (record a { greeted = true; sent = a.sent ++ a.initial ∷ [] });
    } in
    if s.started then s1 else record s1 { started = true; start = close_signal s.start }

-- `close` of an attachment
unfoldable pub close_attachment : ℕ → Server → Server
close_attachment id s = record s {
  attachments = update s.attachments id (record (s.attachments id) { closed = true });
}

-- The deferred end of `attach`.
unfoldable pub detach : ℕ → Server → Server
unfolding close_attachment
detach id s =
    let s1 = close_attachment id s in
    if is_active s.active id then record s1 { active = none } else s1

-- The writer takes the first message and writes it.
unfoldable pub write_next : Attachment → Attachment
write_next a = elim a.queue [
  | [] ↦ a
  | message ∷ queue ↦ record a { queue = queue; sent = a.sent ++ message ∷ [] }
]

-- The last loop of `attach`, behind the close of `s.done`: what a client that takes every message has
-- been sent in the end.
unfoldable pub drain : List Response → List Response → List Response
drain [] sent = sent
drain (message ∷ queue) sent =
    let rest = drain queue (sent ++ message ∷ []) in
    if message.finished then sent ++ message ∷ [] else rest

-- `enqueueLocked`. Where both branches of the `select` are ready, `prefer_done` chooses; `none` is the
-- wait for one of them.
unfoldable pub enqueue_locked : Bool → Response → Server → Option Server
enqueue_locked prefer_done message s = elim s.active [
  | none ↦ some s
  | some id ↦
      let a = s.attachments id in
      let queued = record s {
        attachments = update s.attachments id (record a { queue = a.queue ++ message ∷ [] });
      } in
      let room = ltb (length a.queue) event_buffer_size in
      if room && not (a.closed && prefer_done)
      then some queued
      else if a.closed
      then some (record s { active = none })
      else none
]

abbrev pub is_stopped : EventKind → Bool
is_stopped supervisor_stopped = true
is_stopped kind = false

abbrev pub is_log_line : EventKind → Bool
is_log_line log_line = true
is_log_line kind = false

-- The message that the loop of `serve` makes of an event.
unfoldable pub event_message : Message → Sup → Event → Response
unfolding encode_event snapshot
event_message message sup e = record empty_response {
  event = some (encode_event message e);
  snapshots = if is_log_line e.kind then none else some (snapshot sup);
}

-- The body of the loop of `serve` over the events.
unfoldable pub serve_event : Message → Bool → Event → Server → Option Server
unfolding event_message enqueue_locked
serve_event message prefer_done e s =
    let s1 = record s { taken = s.taken ++ e ∷ [] } in
    if is_stopped e.kind
    then some s1
    else enqueue_locked prefer_done (event_message message s.sup e) s1

-- The last critical section of `serve`, with the error of `Run`.
unfoldable pub serve_end : Message → Bool → Option SupError → Server → Option Server
unfolding enqueue_locked error_text snapshot
serve_end message prefer_done error s =
    enqueue_locked prefer_done
      (record empty_response {
        finished = true;
        error = error_text message error;
        snapshots = some (snapshot s.sup);
      })
      (record s { closing = true; phase = ended })
