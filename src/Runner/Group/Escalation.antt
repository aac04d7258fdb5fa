-- ===== src/Runner/Group/Escalation.antt =====
-- The signals that stopping sends to a process group, and when.
use process_deck.Base.{
  ℕ, suc, ◌*◌, ◌+◌, ◌≤◌, ◌<◌, ◌≡◌, refl, ap, ◌∙◌, Bool, true, false, List, [], ◌∷◌, ◌++◌, Option,
  none, some, arith, length, length-append, subst, if_ind, option_ind, replicate, append_assoc,
}
use process_deck.Base.Text.{Text}
use native.Mathlib.Decide.{dec_lt}
use process_deck.Runner.{Spec, kill}
use process_deck.Runner.Group.{
  Answer, done, gone, forbidden, refused, Call, probe, send, Os, StopError, calling, Runner, stop,
  stop_group, wait_for_process_group, last_wait, escalate, first_wait, stop_once, stop_timeout_of,
  second,
}
use process_deck.Runner.Group.Waiting.{Waited, is_there, outcome, wait_for_process_group-Waited}

-- A property of a match on an answer.
answer_ind {ℓ κ} :
    {B : Type κ} (P : B → Type ℓ) (a : Answer) {on_done on_gone on_forbidden : B}
    {on_refused : Text → B}
    → (a ≡ done → P on_done)
    → (a ≡ gone → P on_gone)
    → (a ≡ forbidden → P on_forbidden)
    → ((reason : Text) → P (on_refused reason))
    → P (elim a [
      | done ↦ on_done
      | gone ↦ on_gone
      | forbidden ↦ on_forbidden
      | refused reason ↦ on_refused reason
    ])
answer_ind P done d g f r = d refl
answer_ind P gone d g f r = g refl
answer_ind P forbidden d g f r = f refl
answer_ind P (refused reason) d g f r = r reason

-- The calls behind `made` of one stop. KILL follows only a whole timeout of probes that all found the
-- group there, and nothing but probes follows KILL.
pub data Sends (os : Os) (spec : Spec) (made calls : List Call) : Type 0 where
  stop_only :
      (n : ℕ) → calls ≡ made ++ send spec.stop_signal ∷ replicate n probe → Sends os spec made calls
  then_kill :
      (n m : ℕ)
      → calls ≡ (made ++ send spec.stop_signal ∷ replicate n probe) ++ send kill ∷ replicate m probe
      → n ≡ os.ticks (length made + 1) (stop_timeout_of spec.stop_timeout) + 1
      → ((i : ℕ) → length made < i → i ≤ length made + n → is_there (os.answer i) ≡ true)
      → Sends os spec made calls

-- Only probes behind a call.
abbrev OnlyProbes : Call → List Call → List Call → Type 0
OnlyProbes call made calls = (n : ℕ) × (calls ≡ made ++ call ∷ replicate n probe)

OnlyProbes-calling : (call : Call) (made : List Call) → OnlyProbes call made (calling made call)
OnlyProbes-calling call made = (0, refl)

OnlyProbes-Waited :
    {os : Os} {ticks : ℕ} (call : Call) (made : List Call)
    {result : (Bool × Option StopError) × List Call}
    (w : Waited os ticks (calling made call) result)
    → OnlyProbes call made result.1
OnlyProbes-Waited call made w = (
  suc w.before_last,
  w.probes ∙ append_assoc made (call ∷ []) (replicate (suc w.before_last) probe),
)

last_wait-OnlyProbes :
    (os : Os) (pid : ℕ) (killed : Answer) (made : List Call)
    → OnlyProbes (send kill) made (last_wait os pid killed (calling made (send kill))).1
unfolding last_wait
last_wait-OnlyProbes os pid killed made =
    let made' = calling made (send kill) in
    let ticks = os.ticks (length made') (5 * second) in
    let calls = OnlyProbes-Waited (send kill) made (wait_for_process_group-Waited os ticks made') in
    option_ind (λ (result : Option StopError × List Call). OnlyProbes (send kill) made result.1)
      ((wait_for_process_group os ticks made').0.1) (λ e. calls) (λ e p. calls)

escalate-OnlyProbes :
    (os : Os) (pid : ℕ) (made : List Call) → OnlyProbes (send kill) made (escalate os pid made).1
unfolding escalate
escalate-OnlyProbes os pid made =
    answer_ind (λ (result : Option StopError × List Call). OnlyProbes (send kill) made result.1)
      (os.answer (length made)) (λ a. last_wait-OnlyProbes os pid done made)
      (λ a. last_wait-OnlyProbes os pid gone made) (λ a. last_wait-OnlyProbes os pid forbidden made)
      (λ reason. OnlyProbes-calling (send kill) made)

outcome-there :
    (a : Answer) {result : Bool × Option StopError}
    → result ≡ outcome a
    → result.1 ≡ none
    → result.0 ≡ false
    → is_there a ≡ true
outcome-there done e n f = refl
outcome-there forbidden e n f = refl
outcome-there gone e n f = ground arith
outcome-there (refused reason) e n f = ground arith

module _ (os : Os) (spec : Spec) (pid : ℕ) (made : List Call) where
  abbrev signalled : List Call
  signalled = calling made (send spec.stop_signal)

  length-signalled : length signalled ≡ length made + 1
  length-signalled = length-append made (send spec.stop_signal ∷ [])

  there_until :
      {ticks : ℕ} {result : (Bool × Option StopError) × List Call}
      (w : Waited os ticks signalled result)
      → is_there (os.answer w.last_call) ≡ true
      → (i : ℕ) → length made < i
      → i ≤ length made + suc w.before_last
      → is_there (os.answer i) ≡ true
  there_until w end i low high = elim (dec_lt i w.last_call) [
    | yes before ↦ w.there i (omega (arith, length-signalled)) before
    | no rest ↦
        subst (λ n. is_there (os.answer n) ≡ true)
          (let eq : w.last_call ≡ i = omega (arith, w.numbered, length-signalled) in eq) end
  ]

  escalate-Sends :
      {result : (Bool × Option StopError) × List Call}
      → Waited os (os.ticks (length signalled) (stop_timeout_of spec.stop_timeout)) signalled result
      → result.0.1 ≡ none
      → result.0.0 ≡ false
      → Sends os spec made (escalate os pid result.1).1
  escalate-Sends {result} w no_error still =
      let (m, calls) = escalate-OnlyProbes os pid result.1 in
      let before =
        w.probes
        ∙ append_assoc made (send spec.stop_signal ∷ []) (replicate (suc w.before_last) probe) in
      let end = outcome-there (os.answer w.last_call) w.last no_error still in
      then_kill (suc w.before_last) m (calls ∙ ap (λ l. l ++ send kill ∷ replicate m probe) before)
        (omega (
          arith,
          w.whole end,
          ap (λ l. os.ticks l (stop_timeout_of spec.stop_timeout)) length-signalled,
        ))
        (there_until w end)

  first_wait-Sends : Sends os spec made (first_wait os spec pid signalled).1
  unfolding first_wait
  first_wait-Sends =
      let ticks = os.ticks (length signalled) (stop_timeout_of spec.stop_timeout) in
      let w = wait_for_process_group-Waited os ticks signalled in
      let (n, probes) = OnlyProbes-Waited (send spec.stop_signal) made w in
      let P = λ (result : Option StopError × List Call). Sends os spec made result.1 in
      option_ind P ((wait_for_process_group os ticks signalled).0.1)
        (λ no_error.
          if_ind P ((wait_for_process_group os ticks signalled).0.0) (λ ended. stop_only n probes)
            (λ still. escalate-Sends w no_error still))
        (λ e failed. stop_only n probes)

  stop_once-Sends : Sends os spec made (stop_once os spec pid made).1
  unfolding stop_once
  stop_once-Sends =
      answer_ind (λ (result : Option StopError × List Call). Sends os spec made result.1)
        (os.answer (length made)) (λ a. first_wait-Sends) (λ a. stop_only 0 refl)
        (λ a. first_wait-Sends) (λ reason. stop_only 0 refl)

-- The first stop of a started runner sends its stop signal and then at most probes, or also KILL behind
-- them; KILL only when the probes went on for the whole stop timeout and each found the group there,
-- and only probes follow it.
pub stop-Sends :
    (os : Os) (r : Runner) {pid : ℕ}
    → r.cmd ≡ some pid
    → r.stopped ≡ none
    → Sends os r.spec r.made (stop os r).0.made
unfolding stop stop_group
stop-Sends os r {pid} started fresh =
    subst (Sends os r.spec r.made) (ground arith) (stop_once-Sends os r.spec pid r.made)
