-- ===== src/Session/Server/Messages.antt =====
-- Messages that carry a run of the events of a supervisor.
use process_deck.Base.{
  ◌≡◌, refl, sym, ap, ◌∙◌, Bool, true, false, List, [], ◌∷◌, ◌++◌, none, some, if◌then◌else◌,
  append_assoc, append-nil, arith,
}
use process_deck.Supervisor.{Event}
use process_deck.Session.{Response, Message, WireEvent, encode_event}
use process_deck.Session.Server.{is_stopped}

-- The events that messages carry.
abbrev pub events_of : List Response → List WireEvent
events_of [] = []
events_of (m ∷ ms) = elim m.event [ none ↦ events_of ms | some e ↦ e ∷ events_of ms ]

-- The events that are passed on: all but the last one of the supervisor.
abbrev pub passed_on : Message → List Event → List WireEvent
passed_on message [] = []
passed_on message (e ∷ es) =
    if is_stopped e.kind
    then passed_on message es
    else encode_event message e ∷ passed_on message es

-- No message is a last one, or only the last is, and then it carries no event.
abbrev pub NoneFinished : List Response → Type 0
NoneFinished [] = Unit
NoneFinished (m ∷ ms) = (m.finished ≡ false) × NoneFinished ms

abbrev pub FinishedLast : List Response → Type 0
FinishedLast [] = Unit
FinishedLast (m ∷ []) = m.finished ≡ true → m.event ≡ none
FinishedLast (m ∷ n ∷ ms) = (m.finished ≡ false) × FinishedLast (n ∷ ms)

pub events_of-append : (xs ys : List Response) → events_of (xs ++ ys) ≡ events_of xs ++ events_of ys
events_of-append [] ys = refl
events_of-append (x ∷ xs) ys = ground (arith, events_of-append xs ys)

pub passed_on-append :
    (message : Message) (xs ys : List Event)
    → passed_on message (xs ++ ys) ≡ passed_on message xs ++ passed_on message ys
passed_on-append message [] ys = refl
passed_on-append message (x ∷ xs) ys = ground (arith, passed_on-append message xs ys)

pub NoneFinished-append :
    (xs ys : List Response) → NoneFinished xs → NoneFinished ys → NoneFinished (xs ++ ys)
NoneFinished-append [] ys a b = b
NoneFinished-append (x ∷ xs) ys (n, a) b = (n, NoneFinished-append xs ys a b)

pub FinishedLast-concat :
    (xs : List Response) (m : Response)
    → NoneFinished xs
    → m.event ≡ none
    → FinishedLast (xs ++ m ∷ [])
FinishedLast-concat [] m a e = λ h. e
FinishedLast-concat (x ∷ []) m (n, a) e = (n, λ h. e)
FinishedLast-concat (x ∷ y ∷ xs) m (n, a) e = (n, FinishedLast-concat (y ∷ xs) m a e)

pub FinishedLast-cons :
    (m : Response) (xs : List Response)
    → m.finished ≡ false
    → FinishedLast xs
    → FinishedLast (m ∷ xs)
FinishedLast-cons m [] n a = λ h. cc
FinishedLast-cons m (x ∷ xs) n a = (n, a)

pub NoneFinished-last : (xs : List Response) → NoneFinished xs → FinishedLast xs
NoneFinished-last [] a = tt
NoneFinished-last (x ∷ []) (n, a) = λ h. cc
NoneFinished-last (x ∷ y ∷ xs) (n, a) = (n, NoneFinished-last (y ∷ xs) a)

pub FinishedLast-tail : (xs ys : List Response) → FinishedLast (xs ++ ys) → FinishedLast ys
FinishedLast-tail [] ys f = f
FinishedLast-tail (x ∷ []) [] f = tt
FinishedLast-tail (x ∷ []) (y ∷ ys) (n, f) = f
FinishedLast-tail (x ∷ z ∷ xs) ys (n, f) = FinishedLast-tail (z ∷ xs) ys f

pub FinishedLast-front : (xs ys : List Response) → FinishedLast (xs ++ ys) → FinishedLast xs
FinishedLast-front [] ys f = tt
FinishedLast-front (x ∷ []) [] f = f
FinishedLast-front (x ∷ []) (y ∷ ys) (n, f) = λ h. cc
FinishedLast-front (x ∷ z ∷ xs) ys (n, f) = (n, FinishedLast-front (z ∷ xs) ys f)

pub FinishedLast-alone :
    (m : Response) (ms : List Response)
    → FinishedLast (m ∷ ms)
    → m.finished ≡ true
    → (ms ≡ []) × (m.event ≡ none)
FinishedLast-alone m [] f h = (refl, f h)
FinishedLast-alone m (n ∷ ms) (g, f) h = cc

pub events_of-none :
    (m : Response) (ms : List Response) → m.event ≡ none → events_of (m ∷ ms) ≡ events_of ms
events_of-none m ms h = ground arith

pub events_of-some :
    (m : Response) (ms : List Response) {wire : WireEvent}
    → m.event ≡ some wire
    → events_of (m ∷ ms) ≡ wire ∷ events_of ms
events_of-some m ms h = ground arith

-- Messages that carry a run of the events without a gap and in their order, up to the newest while the
-- client is attached.
pub record IsRun (message : Message) (taken : List Event) (attached : Bool) (log : List Response)
    : Type 0 where
  pub before : List Event
  pub mine : List Event
  pub after : List Event
  pub run : taken ≡ before ++ (mine ++ after)
  pub events : events_of log ≡ passed_on message mine
  pub current : attached ≡ true → after ≡ []

module _ {message : Message} {taken : List Event} {attached : Bool} {log : List Response}
    (r : IsRun message taken attached log) where
  pub IsRun-log :
      {other : List Response} → events_of other ≡ events_of log → IsRun message taken attached other
  IsRun-log same_events = record {
    before = r.before;
    mine = r.mine;
    after = r.after;
    run = r.run;
    events = same_events ∙ r.events;
    current = r.current;
  }

  pub IsRun-attached :
      {other : Bool} → (other ≡ true → attached ≡ true) → IsRun message taken other log
  IsRun-attached weaker = record {
    before = r.before;
    mine = r.mine;
    after = r.after;
    run = r.run;
    events = r.events;
    current = λ h. r.current (weaker h);
  }

  pub IsRun-missed : (e : Event) → attached ≡ false → IsRun message (taken ++ e ∷ []) attached log
  IsRun-missed e away = record {
    before = r.before;
    mine = r.mine;
    after = r.after ++ e ∷ [];
    run =
        ap (λ l. l ++ e ∷ []) r.run
        ∙ append_assoc r.before (r.mine ++ r.after) (e ∷ [])
        ∙ ap (λ l. r.before ++ l) (append_assoc r.mine r.after (e ∷ []));
    events = r.events;
    current = λ h. cc;
  }

  -- The newest event joins the run.
  pub IsRun-event :
      {other : List Response} (e : Event)
      → attached ≡ true
      → events_of other ≡ events_of log ++ passed_on message (e ∷ [])
      → IsRun message (taken ++ e ∷ []) attached other
  IsRun-event e here more = record {
    before = r.before;
    mine = r.mine ++ e ∷ [];
    after = [];
    run =
        ap (λ l. l ++ e ∷ [])
          (r.run
            ∙ ap (λ l. r.before ++ l) (ap (λ l. r.mine ++ l) (r.current here) ∙ append-nil r.mine))
        ∙ append_assoc r.before r.mine (e ∷ [])
        ∙ ap (λ l. r.before ++ l) (sym (append-nil (r.mine ++ e ∷ [])));
    events =
        more
        ∙ ap (λ l. l ++ passed_on message (e ∷ [])) r.events
        ∙ sym (passed_on-append message r.mine (e ∷ []));
    current = λ h. refl;
  }
