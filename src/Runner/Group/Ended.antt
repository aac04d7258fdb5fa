-- ===== src/Runner/Group/Ended.antt =====
-- When stopping a process group succeeds.
use process_deck.Base.{
  ℕ, ◌-◌, ◌*◌, ◌≡◌, ◌↔◌, ap, Bool, List, [], ◌∷◌, Option, none, some, arith, length, length-append,
}
use process_deck.Runner.{Spec, kill}
use process_deck.Runner.Group.{
  Answer, done, gone, forbidden, Call, send, Os, StopError, calling, wait_for_process_group,
  last_wait, escalate, first_wait, stop_once, stop_timeout_of, second, Runner, stop_group, stop,
}
use process_deck.Runner.Group.Waiting.{Waited, wait_for_process_group-Waited, length-Waited}

abbrev pub last_answer : Os → List Call → Answer
last_answer os made = os.answer (length made - 1)

-- No error is reported exactly when the last call showed that the group has gone.
abbrev pub ShowsEnd : Os → Option StopError × List Call → Type 0
ShowsEnd os result = (result.0 ≡ none) ↔ (last_answer os result.1 ≡ gone)

last_answer-Waited :
    {os : Os} {ticks : ℕ} {made : List Call} {result : (Bool × Option StopError) × List Call}
    (w : Waited os ticks made result)
    → last_answer os result.1 ≡ os.answer w.last_call
last_answer-Waited {os} w = ap os.answer (omega (arith, length-Waited w))

last_wait-ShowsEnd :
    (os : Os) (pid : ℕ) (killed : Answer) (made : List Call)
    → ShowsEnd os (last_wait os pid killed made)
unfolding last_wait
last_wait-ShowsEnd os pid killed made =
    let w = wait_for_process_group-Waited os (os.ticks (length made) (5 * second)) made in
    ground (arith, w.last, last_answer-Waited w)

escalate-ShowsEnd : (os : Os) (pid : ℕ) (made : List Call) → ShowsEnd os (escalate os pid made)
unfolding escalate
escalate-ShowsEnd os pid made =
    let made' = calling made (send kill) in
    let sent : last_answer os made' ≡ os.answer (length made) =
      ap os.answer (omega (arith, length-append {0} made (send kill ∷ []))) in
    ground (
      arith,
      sent,
      last_wait-ShowsEnd os pid done made',
      last_wait-ShowsEnd os pid gone made',
      last_wait-ShowsEnd os pid forbidden made',
    )

first_wait-ShowsEnd :
    (os : Os) (spec : Spec) (pid : ℕ) (made : List Call) → ShowsEnd os (first_wait os spec pid made)
unfolding first_wait
first_wait-ShowsEnd os spec pid made =
    let ticks = os.ticks (length made) (stop_timeout_of spec.stop_timeout) in
    let w = wait_for_process_group-Waited os ticks made in
    ground (
      arith,
      w.last,
      last_answer-Waited w,
      escalate-ShowsEnd os pid (wait_for_process_group os ticks made).1,
    )

stop_once-ShowsEnd :
    (os : Os) (spec : Spec) (pid : ℕ) (made : List Call) → ShowsEnd os (stop_once os spec pid made)
unfolding stop_once
stop_once-ShowsEnd os spec pid made =
    let made' = calling made (send spec.stop_signal) in
    let sent : last_answer os made' ≡ os.answer (length made) =
      ap os.answer (omega (arith, length-append {0} made (send spec.stop_signal ∷ []))) in
    ground (arith, sent, first_wait-ShowsEnd os spec pid made')

-- The first stop of a started runner reports no error exactly when the last call that it makes was
-- answered that the group has gone; whatever happens later, every further stop gives the same answer
-- and makes no call.
pub stop-ShowsEnd :
    (os later_os : Os) (r : Runner) {pid : ℕ}
    → r.cmd ≡ some pid
    → r.stopped ≡ none
    → ShowsEnd os ((stop os r).1, (stop os r).0.made) × (stop later_os (stop os r).0 ≡ stop os r)
unfolding stop stop_group
stop-ShowsEnd os later_os r {pid} started fresh =
    ground (arith, stop_once-ShowsEnd os r.spec pid r.made)
