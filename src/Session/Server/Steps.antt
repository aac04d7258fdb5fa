-- ===== src/Session/Server/Steps.antt =====
-- The server of a session as a step relation: the critical sections of internal/session/server.go and
-- the steps of the supervisor below it, interleaved in any order.
use process_deck.Base.{ℕ, ◌≡◌, Bool, true, false, List, [], ◌∷◌, ◌++◌, Option, none, some}
use process_deck.Base.Text.{Text}
use process_deck.Config.Validate.{ParseDuration}
use process_deck.Supervisor.{Sup, SupError, Event}
use process_deck.Supervisor.Steps
use process_deck.Session.{Message}
use process_deck.Session.Server.{
  opened, closed_once, waiting, running, ended, shut, Server, empty_response, update, attach_begin,
  attach_greeted, close_attachment, detach, write_next, serve_event, serve_end,
}

-- A server whose first client has not come yet.
abbrev pub initial_server : Sup → Server
initial_server sup = record {
  sup = sup;
  attachments = λ id. record {
    queue = [];
    closed = true;
    initial = empty_response;
    greeted = false;
    sent = [];
  };
  next = 0;
  active = none;
  started = false;
  start = opened;
  closing = false;
  phase = waiting;
  taken = [];
}

-- A writer only writes behind its first answer; what the loop of `serve` receives next stands behind
-- what it has taken of the supervisor's events.
pub data Step (parse : ParseDuration) (join : Text → Text → Text) (message : Message)
    : Server → Server → Type 0 where
  supervises :
      {s : Server} {sup : Sup}
      → Steps.Step parse join s.sup sup
      → Step parse join message s (record s { sup = sup })
  attaches : {s : Server} → Step parse join message s (attach_begin s).0
  greets :
      {s : Server} (id : ℕ)
      → (s.attachments id).greeted ≡ false
      → (s.attachments id).closed ≡ false
      → Step parse join message s (attach_greeted id s)
  client_gone : {s : Server} (id : ℕ) → Step parse join message s (close_attachment id s)
  detaches : {s : Server} (id : ℕ) → Step parse join message s (detach id s)
  writes :
      {s : Server} (id : ℕ)
      → (s.attachments id).greeted ≡ true
      → Step parse join message s
          (record s { attachments = update s.attachments id (write_next (s.attachments id)) })
  serve_starts :
      {s : Server}
      → s.phase ≡ waiting
      → s.start ≡ closed_once
      → Step parse join message s (record s { phase = running })
  gives_up :
      {s : Server} → s.phase ≡ waiting → Step parse join message s (record s { phase = shut })
  serves :
      {s t : Server} (prefer_done : Bool) (e : Event) (rest : List Event)
      → s.phase ≡ running
      → s.sup.events ≡ s.taken ++ e ∷ rest
      → serve_event message prefer_done e s ≡ some t
      → Step parse join message s t
  serve_ends :
      {s t : Server} (prefer_done : Bool) (error : Option SupError)
      → s.phase ≡ running
      → s.sup.events_closed ≡ true
      → s.sup.events ≡ s.taken
      → serve_end message prefer_done error s ≡ some t
      → Step parse join message s t
  done_closed :
      {s : Server} → s.phase ≡ ended → Step parse join message s (record s { phase = shut })

pub data Reach (parse : ParseDuration) (join : Text → Text → Text) (message : Message) (s : Server)
    : Server → Type 0 where
  here : Reach parse join message s s
  next :
      {t u : Server}
      → Reach parse join message s t
      → Step parse join message t u
      → Reach parse join message s u
