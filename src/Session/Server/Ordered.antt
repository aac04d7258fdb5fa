-- ===== src/Session/Server/Ordered.antt =====
-- Every client of a session is sent the supervisor's events in order.
use process_deck.Base.{
  ℕ, ◌<◌, ◌≡◌, refl, sym, subst, Bool, true, false, not, ◌&&◌, ◌||◌, [], ◌∷◌, ◌++◌, Option, none,
  some, ◌==◌, if◌then◌else◌, ltb, ltb→lt, length, arith, if_ind, ==_iff, option_ind,
}
use process_deck.Base.Text.{Text}
use process_deck.Config.Validate.{ParseDuration}
use process_deck.Supervisor.{Event}
use process_deck.Supervisor.Inv.{IsValid}
use process_deck.Supervisor.Steps.{Step-IsValid}
use process_deck.Session.{Response, Message, event_buffer_size, encode_event}
use process_deck.Session.Server.{
  Attachment, opened, closed_once, Phase, waiting, running, ended, Server, update, is_active,
  is_attached, initial_response, attach_begin, attach_greeted, close_attachment, detach,
  enqueue_locked, is_stopped, event_message, serve_event, serve_end,
}
use process_deck.Session.Server.Steps.{
  Step, supervises, attaches, greets, client_gone, detaches, writes, serve_starts, gives_up, serves,
  serve_ends, done_closed,
}
use process_deck.Session.Server.Delivery.{
  IsDelivery, IsDelivery-attached, IsDelivery-closing, IsDelivery-closed, IsDelivery-taken,
  IsDelivery-greeted, IsDelivery-write_next, IsDelivery-event, IsDelivery-finished, IsDelivery-new,
}

abbrev pub is_going : Phase → Bool
is_going waiting = true
is_going running = true
is_going other = false

-- A server whose clients are all served in order, over a supervisor in a valid state.
pub record IsOrdered (message : Message) (s : Server) : Type 0 where
  pub sup_valid : IsValid s.sup
  pub each :
      (id : ℕ) → IsDelivery message s.taken s.closing (is_active s.active id) (s.attachments id)
  pub going : is_going s.phase ≡ true → s.closing ≡ false
  pub start_once : s.start ≡ (if s.started then closed_once else opened)

-- A property of every attachment behind a write to one.
update_ind {ℓ} :
    (P : ℕ → Attachment → Type ℓ) (attachments : ℕ → Attachment) (id : ℕ) (a : Attachment)
    → P id a
    → ((j : ℕ) → (j == id) ≡ false → P j (attachments j))
    → (j : ℕ) → P j (update attachments id a j)
update_ind P attachments id a at rest j =
    if_ind (P j) (j == id) (λ e. subst (λ k. P k a) (sym ((==_iff j id).0 e)) at) (λ e. rest j e)

-- What `enqueueLocked` does.
data Enqueued (m : Response) (s : Server) : Server → Type 0 where
  nobody : s.active ≡ none → Enqueued m s s
  queued :
      (id : ℕ)
      → s.active ≡ some id
      → length (s.attachments id).queue < event_buffer_size
      → Enqueued m s (record s {
        attachments =
            update s.attachments id
              (record (s.attachments id) { queue = (s.attachments id).queue ++ m ∷ [] });
      })
  dropped : Enqueued m s (record s { active = none })

enqueue_locked-Enqueued :
    (prefer_done : Bool) (m : Response) (s t : Server)
    → enqueue_locked prefer_done m s ≡ some t
    → Enqueued m s t
unfolding enqueue_locked
enqueue_locked-Enqueued prefer_done m s t =
    option_ind (λ (o : Option Server). o ≡ some t → Enqueued m s t) s.active
      (λ off h. reach s (nobody off) h)
      (λ id on.
        if_ind (λ (o : Option Server). o ≡ some t → Enqueued m s t)
          (ltb (length (s.attachments id).queue) event_buffer_size
            && not ((s.attachments id).closed && prefer_done))
          (λ room h. reach _ (queued id on (ltb→lt _ _ (ground arith))) h)
          (λ none_left.
            if_ind (λ (o : Option Server). o ≡ some t → Enqueued m s t) (s.attachments id).closed
              (λ gone h. reach _ dropped h) (λ waits h. cc)))
  where
    reach :
        (u : Server) → Enqueued m s u → ◌≡◌ {A = Option Server} (some u) (some t) → Enqueued m s t
    reach u e h = subst (Enqueued m s) (cc) e

module _ {message : Message} {s : Server} (o : IsOrdered message s) where
  -- Behind the end of `Run`.
  serve_end-IsOrdered :
      (m : Response) {t : Server}
      → s.phase ≡ running
      → m.event ≡ none
      → Enqueued m (record s { closing = true; phase = ended }) t
      → IsOrdered message t
  serve_end-IsOrdered m r none_event (nobody off) = record {
    sup_valid = o.sup_valid;
    each = λ id. IsDelivery-closing (o.each id);
    going = λ h. cc;
    start_once = o.start_once;
  }
  serve_end-IsOrdered m r none_event dropped = record {
    sup_valid = o.sup_valid;
    each = λ id. IsDelivery-closing (IsDelivery-attached (o.each id) (λ h. cc));
    going = λ h. cc;
    start_once = o.start_once;
  }
  serve_end-IsOrdered m r none_event (queued id on room) = record {
    sup_valid = o.sup_valid;
    each =
        update_ind (λ j a. IsDelivery message s.taken true (is_active s.active j) a) s.attachments
          id _ (IsDelivery-finished (o.each id) m (o.going (rw r refl)) room none_event)
          (λ j other. IsDelivery-closing (o.each j));
    going = λ h. cc;
    start_once = o.start_once;
  }

  -- Behind an event that is passed on.
  serve_event-IsOrdered :
      (e : Event) (m : Response) {t : Server}
      → s.phase ≡ running
      → is_stopped e.kind ≡ false
      → m.event ≡ some (encode_event message e)
      → m.finished ≡ false
      → Enqueued m (record s { taken = s.taken ++ e ∷ [] }) t
      → IsOrdered message t
  serve_event-IsOrdered e m r passes carries going (nobody off) = record {
    sup_valid = o.sup_valid;
    each = λ id. IsDelivery-taken (o.each id) e (λ h. absurd (ground (arith, off)));
    going = o.going;
    start_once = o.start_once;
  }
  serve_event-IsOrdered e m r passes carries going dropped = record {
    sup_valid = o.sup_valid;
    each = λ id. IsDelivery-taken (IsDelivery-attached (o.each id) (λ h. cc)) e (λ h. cc);
    going = o.going;
    start_once = o.start_once;
  }
  serve_event-IsOrdered e m r passes carries going (queued id on room) = record {
    sup_valid = o.sup_valid;
    each =
        update_ind
          (λ j a. IsDelivery message (s.taken ++ e ∷ []) s.closing (is_active s.active j) a)
          s.attachments id _
          (IsDelivery-event (o.each id) m (o.going (rw r refl)) room e passes (ground (arith, on))
            carries going)
          (λ j other. IsDelivery-taken (o.each j) e (λ h. absurd (ground (arith, on))));
    going = o.going;
    start_once = o.start_once;
  }

pub Step-IsOrdered :
    (parse : ParseDuration) (join : Text → Text → Text) (message : Message) {s t : Server}
    → Step parse join message s t
    → IsOrdered message s
    → IsOrdered message t
unfolding attach_begin attach_greeted close_attachment detach initial_response serve_event serve_end
    event_message
Step-IsOrdered parse join message (supervises step) o = record {
  sup_valid = Step-IsValid parse join step o.sup_valid;
  each = o.each;
  going = o.going;
  start_once = o.start_once;
}
Step-IsOrdered parse join message {s} attaches o =
    if_ind (λ (r : Server × Option Response). IsOrdered message r.0)
      (s.closing || is_attached s.active) (λ refused. o)
      (λ free. record {
        sup_valid = o.sup_valid;
        each =
            update_ind (λ j a. IsDelivery message s.taken s.closing (is_active (some s.next) j) a)
              s.attachments s.next _ (IsDelivery-new message _ _ _ _ refl refl)
              (λ j other. IsDelivery-attached (o.each j) (λ h. absurd (ground arith)));
        going = o.going;
        start_once = o.start_once;
      })
Step-IsOrdered parse join message {s} (greets id waits there) o =
    if_ind (IsOrdered message) s.started
      (λ old. record {
        sup_valid = o.sup_valid;
        each =
            update_ind (λ j a. IsDelivery message s.taken s.closing (is_active s.active j) a)
              s.attachments id _ (IsDelivery-greeted (o.each id) waits) (λ j other. o.each j);
        going = o.going;
        start_once = o.start_once;
      })
      (λ first. record {
        sup_valid = o.sup_valid;
        each =
            update_ind (λ j a. IsDelivery message s.taken s.closing (is_active s.active j) a)
              s.attachments id _ (IsDelivery-greeted (o.each id) waits) (λ j other. o.each j);
        going = o.going;
        start_once = ground (arith, o.start_once);
      })
Step-IsOrdered parse join message {s} (client_gone id) o = record {
  sup_valid = o.sup_valid;
  each =
      update_ind (λ j a. IsDelivery message s.taken s.closing (is_active s.active j) a)
        s.attachments id _ (IsDelivery-closed (o.each id)) (λ j other. o.each j);
  going = o.going;
  start_once = o.start_once;
}
Step-IsOrdered parse join message {s} (detaches id) o =
    if_ind (IsOrdered message) (is_active s.active id)
      (λ mine. record {
        sup_valid = o.sup_valid;
        each = λ j.
            IsDelivery-attached
              (update_ind (λ k a. IsDelivery message s.taken s.closing (is_active s.active k) a)
                s.attachments id _ (IsDelivery-closed (o.each id)) (λ k other. o.each k) j)
              (λ h. cc);
        going = o.going;
        start_once = o.start_once;
      })
      (λ other_client. record {
        sup_valid = o.sup_valid;
        each =
            update_ind (λ j a. IsDelivery message s.taken s.closing (is_active s.active j) a)
              s.attachments id _ (IsDelivery-closed (o.each id)) (λ j other. o.each j);
        going = o.going;
        start_once = o.start_once;
      })
Step-IsOrdered parse join message {s} (writes id greeted) o = record {
  sup_valid = o.sup_valid;
  each =
      update_ind (λ j a. IsDelivery message s.taken s.closing (is_active s.active j) a)
        s.attachments id _ (IsDelivery-write_next (o.each id) greeted) (λ j other. o.each j);
  going = o.going;
  start_once = o.start_once;
}
Step-IsOrdered parse join message (serve_starts w c) o = record {
  sup_valid = o.sup_valid;
  each = o.each;
  going = λ h. o.going (rw w refl);
  start_once = o.start_once;
}
Step-IsOrdered parse join message (gives_up w) o = record {
  sup_valid = o.sup_valid;
  each = o.each;
  going = λ h. cc;
  start_once = o.start_once;
}
Step-IsOrdered parse join message {s} {t} (serves prefer_done e rest r l done) o =
    if_ind (λ (u : Option Server). u ≡ some t → IsOrdered message t) (is_stopped e.kind)
      (λ stopped h.
        let ordered : IsOrdered message (record s { taken = s.taken ++ e ∷ [] }) = record {
          sup_valid = o.sup_valid;
          each = λ id. IsDelivery-taken (o.each id) e (λ attached. stopped);
          going = o.going;
          start_once = o.start_once;
        } in
        subst (IsOrdered message) (cc) ordered)
      (λ passes h.
        serve_event-IsOrdered o e _ r passes refl refl
          (enqueue_locked-Enqueued prefer_done _ _ _ h))
      done
Step-IsOrdered parse join message (serve_ends prefer_done error r c l done) o =
    serve_end-IsOrdered o _ r refl (enqueue_locked-Enqueued prefer_done _ _ _ done)
Step-IsOrdered parse join message (done_closed e) o = record {
  sup_valid = o.sup_valid;
  each = o.each;
  going = λ h. cc;
  start_once = o.start_once;
}
