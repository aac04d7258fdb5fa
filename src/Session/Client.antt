-- ===== src/Session/Client.antt =====
-- internal/session/client.go: what a client makes of the stream of its connection. The order of a list of
-- batches stands for the order in which Go runs through the map of histories.
pub mod Reading
use process_deck.Base.{
  ℕ, ◌+◌, ◌-◌, ◌==◌, Bool, true, false, not, List, [], ◌∷◌, ◌++◌, Option, none, some, if◌then◌else◌,
  ltb, length, map,
}
use process_deck.Base.Result.{Result, ok, err}
use process_deck.Base.Text.{Text, codes, same}
use process_deck.LogBuf.{Batch}
use process_deck.Supervisor.{LogEntry, Event, log_line}
use process_deck.Supervisor.Lifecycle.{Snapshot}
use process_deck.Session.{Response, Received, Request, protocol_version, decode}

-- What `connect` returns an error for: a failed dial or transfer, the error of the answer, another version.
pub data ConnectError : Type 0 where
  transport answered : Text → ConnectError
  incompatible : ConnectError

pub record Client : Type 0 where
  pub reattached : Bool
  pub history : List (Text × Batch LogEntry)
  pub snapshots : List Snapshot
  pub error : Option Text
  pub events : List Received
  pub closed : Bool

abbrev or_empty : Option (List Snapshot) → List Snapshot
or_empty none = []
or_empty (some snapshots) = snapshots

-- `connect`, from the first answer or the failure to get it.
unfoldable pub connect : Result Text Response → Result ConnectError Client
unfolding same
connect (err reason) = err (transport reason)
connect (ok initial) =
    if not (same initial.error [])
    then err (answered initial.error)
    else if not (initial.version == protocol_version)
    then err incompatible
    else ok (record {
      reattached = initial.reattached;
      history = initial.history;
      snapshots = or_empty initial.snapshots;
      error = none;
      events = [];
      closed = false;
    })

unfoldable pub set_error : Text → Client → Client
set_error reason c = elim c.error [ none ↦ record c { error = some reason } | some first ↦ c ]

-- The first part of the loop of `read`.
unfoldable pub keep_snapshots : Response → Client → Client
keep_snapshots m c = elim m.snapshots [
  | none ↦ c
  | some snapshots ↦ record c { snapshots = snapshots }
]

unfoldable pub finish : Response → Client → Client
unfolding set_error same
finish m c = if same m.error [] then c else set_error m.error c

-- The loop of `read` over the messages that arrive, and the error that ends the stream behind them.
-- Where the client was closed, the `select` of an event may still take the event, as long as there is
-- room; here the close is taken.
unfoldable pub read : List Response → Text → Client → Client
unfolding keep_snapshots finish set_error decode
read [] lost c = set_error lost c
read (m ∷ ms) lost c =
    let c1 = keep_snapshots m c in
    let going : Client = elim m.event [
      | none ↦ read ms lost c1
      | some wire ↦
          let next = read ms lost (record c1 { events = c1.events ++ decode wire ∷ [] }) in
          if c1.closed then c1 else next
    ] in
    if m.finished then finish m c1 else going

-- The events of one batch, from the entry with the given index on.
unfoldable pub batch_events : Text → Batch LogEntry → ℕ → List LogEntry → List Received
batch_events name batch index [] = []
batch_events name batch index (entry ∷ entries) =
    record {
      event = record {
        kind = log_line;
        process = name;
        stream = entry.stream;
        line = entry.line;
        log_cursor = batch.next - (length batch.entries - index - 1);
        log_retained = batch.retained;
        log_state_valid = true;
        state = none;
        pid = 0;
        restarts = 0;
        exit_code = none;
        error = none;
        time = entry.time;
      };
      error = none;
    }
    ∷ batch_events name batch (index + 1) entries

unfoldable pub history_events : List (Text × Batch LogEntry) → List Received
unfolding batch_events
history_events [] = []
history_events ((name, batch) ∷ batches) =
    batch_events name batch 0 batch.entries ++ history_events batches

-- `sort.SliceStable` by time
unfoldable pub insert_by_time : Received → List Received → List Received
insert_by_time r [] = r ∷ []
insert_by_time r (x ∷ xs) =
    let rest = insert_by_time r xs in if ltb x.event.time r.event.time then x ∷ rest else r ∷ x ∷ xs

unfoldable pub sort_by_time : List Received → List Received
unfolding insert_by_time
sort_by_time [] = []
sort_by_time (r ∷ rs) = insert_by_time r (sort_by_time rs)

unfoldable pub history : Client → List Received
unfolding history_events sort_by_time
history c = sort_by_time (history_events c.history)

-- `call`, from the answer to a request or the failure to get it.
unfoldable pub call : Result Text Response → Option Response × Option Text
unfolding same
call (err reason) = (none, some reason)
call (ok reply) = (some reply, if same reply.error [] then none else some reply.error)

-- `LogsSince`
unfoldable pub client_logs : Result Text Response → Client → Client × Option (Batch LogEntry)
unfolding call set_error
client_logs answer c =
    let (reply, failure) = call answer in
    let logs : Option (Batch LogEntry) = elim reply [ none ↦ none | some r ↦ r.logs ] in
    elim failure [
      | none ↦ (c, logs)
      | some reason ↦ (record (set_error reason c) { closed = true }, logs)
    ]
