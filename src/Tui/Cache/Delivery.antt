-- ===== src/Tui/Cache/Delivery.antt =====
-- How a log line gets from the supervisor (internal/supervisor/supervisor.go) into the cache of the
-- client (internal/tui/model.go): by the event of `forwardLogs`, or by a batch of `LogsSince`.
use process_deck.Base.Text.{Text}
use process_deck.Runner.{LogLine}
use process_deck.Supervisor.{LogEntry}
use process_deck.Tui.{Measures}

module _ (measures : Measures) where
  abbrev entry_of : LogLine → LogEntry
  entry_of line = record { stream = line.stream; line = line.line; time = line.time }
