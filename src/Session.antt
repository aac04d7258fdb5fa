-- ===== src/Session.antt =====
-- internal/session/protocol.go. An error of the supervisor crosses the socket as its message, which
-- `message` gives; JSON itself is taken to transport every value.
pub mod Client
pub mod Server
pub mod Launch
mod Tests
use process_deck.Base.{
  ℕ, Bool, false, List, [], ◌≡◌, arith, Option, none, some, ◌==◌, if◌then◌else◌, Option-cases, inl,
  inr,
}
use process_deck.Base.Text.{Text, same}
use process_deck.LogBuf.{Batch}
use process_deck.Supervisor.{SupError, Event, LogEntry}
use process_deck.Supervisor.Lifecycle.{Snapshot}

unfoldable pub protocol_version : ℕ
protocol_version = 1

unfoldable pub event_buffer_size : ℕ
event_buffer_size = 1024

pub record Request : Type 0 where
  pub version : ℕ
  pub method : Text
  pub process : Text
  pub cursor : ℕ

-- The message stands beside the event, whose own error is not sent.
pub record WireEvent : Type 0 where
  pub event : Event
  pub error : Text

pub record Response : Type 0 where
  pub version : ℕ
  pub error : Text
  pub reattached : Bool
  pub snapshots : Option (List Snapshot)
  pub history : List (Text × Batch LogEntry)
  pub logs : Option (Batch LogEntry)
  pub event : Option WireEvent
  pub finished : Bool

-- An event as a client has it: its error is what `errors.New` makes of the message.
pub record Received : Type 0 where
  pub event : Event
  pub error : Option Text

abbrev pub Message : Type 0
Message = SupError → Text

unfoldable pub error_text : Message → Option SupError → Text
error_text message none = []
error_text message (some e) = message e

unfoldable pub encode_event : Message → Event → WireEvent
unfolding error_text
encode_event message event = record {
  event = record event { error = none };
  error = error_text message event.error;
}

unfoldable pub decode : WireEvent → Received
unfolding same
decode wire = record {
  event = wire.event;
  error = if same wire.error [] then none else some wire.error;
}

-- An event crosses the socket unchanged, up to its error, of which the message arrives.
pub decode-encode_event :
    (message : Message) (e : Event)
    → ((error : SupError) → same (message error) [] ≡ false)
    → decode (encode_event message e) ≡ record {
      event = record e { error = none };
      error = elim e.error [ none ↦ none | some error ↦ some (message error) ];
    }
unfolding decode encode_event
decode-encode_event message e spoken = elim (Option-cases e.error) [
  | inl quiet ↦ ground arith
  | inr (error, failed) ↦ ground (arith, spoken error)
]
