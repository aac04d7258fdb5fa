-- ===== src/Session/Server/Reached.antt =====
-- What holds of every server of a session that its steps can reach.
use process_deck.Base.{ℕ, ◌≡◌, ◌≢◌, refl, Bool, true, false, [], if◌then◌else◌}
use process_deck.Base.Text.{Text}
use process_deck.Config.Validate.{ParseDuration}
use process_deck.Supervisor.{Sup}
use process_deck.Supervisor.Inv.{IsValid}
use process_deck.Session.{Message}
use process_deck.Session.Server.{
  Signal, opened, closed_once, panicked, Server, empty_response, is_active,
}
use process_deck.Session.Server.Steps.{Reach, here, next, initial_server}
use process_deck.Session.Server.Delivery.{IsDelivery, IsDelivery-closed, IsDelivery-new}
use process_deck.Session.Server.Ordered.{IsOrdered, Step-IsOrdered}

initial-IsOrdered :
    (message : Message) (sup : Sup) → IsValid sup → IsOrdered message (initial_server sup)
initial-IsOrdered message sup v = record {
  sup_valid = v;
  each = λ id. IsDelivery-closed (IsDelivery-new message [] false false empty_response refl refl);
  going = λ h. refl;
  start_once = refl;
}

Reach-IsOrdered :
    (parse : ParseDuration) (join : Text → Text → Text) (message : Message) {s t : Server}
    → Reach parse join message s t
    → IsOrdered message s
    → IsOrdered message t
Reach-IsOrdered parse join message here o = o
Reach-IsOrdered parse join message (next r step) o =
    Step-IsOrdered parse join message step (Reach-IsOrdered parse join message r o)

-- However requests, clients that come and go, writers and the supervisor interleave: what any client of
-- a session is sent, with what waits in its queue of bounded length, is its first answer and then a run
-- of the supervisor's events in their order and without a gap, up to the newest while it is attached;
-- the message with the result comes last, and only once the session closes. The supervisor stays in a
-- valid state, and the channel that starts it is never closed twice.
pub Reach-IsDelivery :
    (parse : ParseDuration) (join : Text → Text → Text) (message : Message) {sup : Sup} {s : Server}
    → IsValid sup
    → Reach parse join message (initial_server sup) s
    → ((id : ℕ) → IsDelivery message s.taken s.closing (is_active s.active id) (s.attachments id))
      × IsValid s.sup
      × (s.start ≢ panicked)
Reach-IsDelivery parse join message {sup} {s} v r =
    let o = Reach-IsOrdered parse join message r (initial-IsOrdered message sup v) in
    (o.each, o.sup_valid, never s.started o.start_once)
  where
    never :
        (started : Bool) {start : Signal}
        → start ≡ (if started then closed_once else opened)
        → start ≢ panicked
    never true e h = cc
    never false e h = cc
