-- ===== src/Runner/Group.antt =====
-- The end of a process group: `stopGroup`, `waitForProcessGroup` and `Stop` of internal/process/runner.go
-- over the calls of process_darwin.go. What `kill(2)` answers to each call in turn, and how often the
-- ticker is read before a timer fires, are arguments. A specification always has its signal here, as
-- `ParseSignal` gives one for every name.
pub mod Waiting
pub mod Ended
pub mod Escalation
use process_deck.Base.{
  ℕ, zero, suc, ◌+◌, ◌*◌, Bool, true, false, not, ◌&&◌, ◌||◌, List, [], ◌∷◌, ◌++◌, Option, none,
  some, if◌then◌else◌, length,
}
use process_deck.Base.Int.{ℤ, pos, negsuc}
use process_deck.Base.Text.{Text}
use process_deck.Runner.{Signal, kill, Spec}

-- What `kill(2)` answers: success, ESRCH, EPERM or another error.
pub data Answer : Type 0 where
  done gone forbidden : Answer
  refused : Text → Answer

pub data Call : Type 0 where
  probe : Call
  send : Signal → Call

-- The answer to the call after `n` others, and the ticks of a wait that begins after `n` calls and has
-- a timeout in nanoseconds.
pub record Os : Type 0 where
  pub answer : ℕ → Answer
  pub ticks : ℕ → ℕ → ℕ

pub data StopError : Type 0 where
  call_failed : Text → StopError
  still_there : (pid : ℕ) (kill_answer : Answer) → StopError

abbrev pub is_process_done : Answer → Bool
is_process_done gone = true
is_process_done answer = false

-- What a call adds to those made.
abbrev pub calling : List Call → Call → List Call
calling made call = made ++ call ∷ []

-- `processGroupAlive`, from the answer to signal 0
unfoldable pub process_group_alive : Answer → Bool × Option StopError
process_group_alive gone = (false, none)
process_group_alive forbidden = (true, none)
process_group_alive done = (true, none)
process_group_alive (refused reason) = (false, some (call_failed reason))

-- The answer, from a probe that ends the wait, or from `rest`.
unfoldable pub poll {ℓ} : {A : Type ℓ} → Answer → (Bool → Option StopError → A) → A → A
unfolding process_group_alive
poll answer ends rest =
    let (alive, failure) = process_group_alive answer in
    elim failure [
      | some e ↦ ends (not alive) (some e)
      | none ↦ if not alive then ends (not alive) none else rest
    ]

-- Whether the group has gone, with the calls made by then.
unfoldable pub wait_for_process_group : Os → ℕ → List Call → (Bool × Option StopError) × List Call
unfolding poll
wait_for_process_group os zero made =
    let made' = calling made probe in
    poll (os.answer (length made)) (λ ended failure. ((ended, failure), made'))
      ((false, none), made')
wait_for_process_group os (suc ticks) made =
    let made' = calling made probe in
    let rest = wait_for_process_group os ticks made' in
    poll (os.answer (length made)) (λ ended failure. ((ended, failure), made')) rest

abbrev pub second : ℕ
second = 1_000_000_000

unfoldable pub stop_timeout_of : ℤ → ℕ
stop_timeout_of (pos zero) = 10 * second
stop_timeout_of (pos (suc n)) = suc n
stop_timeout_of (negsuc n) = 10 * second

-- Behind KILL and its answer.
unfoldable pub last_wait : Os → ℕ → Answer → List Call → Option StopError × List Call
unfolding wait_for_process_group
last_wait os pid killed made =
    let ((ended, failure), made') =
      wait_for_process_group os (os.ticks (length made) (5 * second)) made in
    elim failure [
      | some e ↦ (some e, made')
      | none ↦ ((if ended then none else some (still_there pid killed)), made')
    ]

-- `killProcessGroup` and what follows.
unfoldable pub escalate : Os → ℕ → List Call → Option StopError × List Call
unfolding last_wait
escalate os pid made =
    let made' = calling made (send kill) in
    let killed = os.answer (length made) in
    elim killed [
      | refused reason ↦ (some (call_failed reason), made')
      | done ↦ last_wait os pid done made'
      | gone ↦ last_wait os pid gone made'
      | forbidden ↦ last_wait os pid forbidden made'
    ]

-- Behind the stop signal.
unfoldable pub first_wait : Os → Spec → ℕ → List Call → Option StopError × List Call
unfolding wait_for_process_group escalate stop_timeout_of
first_wait os spec pid made =
    let timeout = stop_timeout_of spec.stop_timeout in
    let ((ended, failure), made') =
      wait_for_process_group os (os.ticks (length made) timeout) made in
    elim failure [
      | some e ↦ (some e, made')
      | none ↦ if ended then (none, made') else escalate os pid made'
    ]

-- The function that `stopOnce` runs.
unfoldable pub stop_once : Os → Spec → ℕ → List Call → Option StopError × List Call
unfolding first_wait
stop_once os spec pid made =
    let made' = calling made (send spec.stop_signal) in
    elim (os.answer (length made)) [
      | refused reason ↦ (some (call_failed reason), made')
      | gone ↦ (none, made')
      | done ↦ first_wait os spec pid made'
      | forbidden ↦ first_wait os spec pid made'
    ]

-- The fields of a runner that stopping uses, with the calls made so far: `cmd` by its process, and
-- `stopOnce` by the result, once there is one.
pub record Runner : Type 0 where
  pub spec : Spec
  pub cmd : Option ℕ
  pub stopped : Option (Option StopError)
  pub made : List Call

unfoldable pub stop_group : Os → ℕ → Runner → Runner × Option StopError
unfolding stop_once
stop_group os pid r = elim r.stopped [
  | some error ↦ (r, error)
  | none ↦
      let (error, made') = stop_once os r.spec pid r.made in
      (record r { stopped = some error; made = made' }, error)
]

-- `Stop`, up to the wait for the end of the output.
unfoldable pub stop : Os → Runner → Runner × Option StopError
unfolding stop_group
stop os r = elim r.cmd [ none ↦ (r, none) | some pid ↦ stop_group os pid r ]
