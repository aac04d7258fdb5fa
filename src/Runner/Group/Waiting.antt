-- ===== src/Runner/Group/Waiting.antt =====
-- The probes of `waitForProcessGroup`.
use process_deck.Base.{
  ℕ, zero, suc, ◌+◌, ◌<◌, ◌≤◌, ◌≡◌, refl, ap, ◌∙◌, Bool, true, false, List, [], ◌∷◌, ◌++◌, Option,
  none, some, append_assoc, arith, length, length-append, subst, length-replicate, replicate,
}
use native.Mathlib.Decide.{dec_lt}
use process_deck.Runner.Group.{
  Answer, done, gone, forbidden, refused, Call, probe, Os, StopError, call_failed, calling, poll,
  wait_for_process_group,
}

-- A group that a probe finds there.
abbrev pub is_there : Answer → Bool
is_there done = true
is_there forbidden = true
is_there other = false

-- Whether a probe with this answer shows the end of the group, and the failure that it reports.
abbrev pub outcome : Answer → Bool × Option StopError
outcome gone = (true, none)
outcome done = (false, none)
outcome forbidden = (false, none)
outcome (refused reason) = (true, some (call_failed reason))

-- A wait of at most `ticks` ticks: its probes, of which all but the last found the group there, and the
-- number of the call that was the last.
pub record Waited (os : Os) (ticks : ℕ) (made : List Call)
    (result : (Bool × Option StopError) × List Call) : Type 0 where
  pub before_last : ℕ
  pub last_call : ℕ
  pub numbered : last_call ≡ length made + before_last
  pub probes : result.1 ≡ made ++ replicate (suc before_last) probe
  pub there : (i : ℕ) → length made ≤ i → i < last_call → is_there (os.answer i) ≡ true
  pub last : result.0 ≡ outcome (os.answer last_call)
  pub whole : is_there (os.answer last_call) ≡ true → before_last ≡ ticks

poll_ind {ℓ κ} :
    {A : Type ℓ} (P : A → Type κ) (a : Answer) (ends : Bool → Option StopError → A) {rest : A}
    → (is_there a ≡ true → P rest)
    → (is_there a ≡ false → P (ends (outcome a).0 (outcome a).1))
    → P (poll a ends rest)
unfolding poll
poll_ind P done ends there ended = there refl
poll_ind P forbidden ends there ended = there refl
poll_ind P gone ends there ended = ended refl
poll_ind P (refused reason) ends there ended = ended refl

one_probe :
    (os : Os) (ticks : ℕ) (made : List Call) {result : Bool × Option StopError}
    → result ≡ outcome (os.answer (length made))
    → (is_there (os.answer (length made)) ≡ true → 0 ≡ ticks)
    → Waited os ticks made (result, calling made probe)
one_probe os ticks made last whole = record {
  before_last = 0;
  last_call = length made;
  numbered = omega arith;
  probes = refl;
  there = λ i low high. absurd (omega arith);
  last = last;
  whole = whole;
}

more_probes :
    (os : Os) (ticks : ℕ) (made : List Call) {result : (Bool × Option StopError) × List Call}
    → is_there (os.answer (length made)) ≡ true
    → Waited os ticks (calling made probe) result
    → Waited os (suc ticks) made result
more_probes os ticks made {result} first w = record {
  before_last = suc w.before_last;
  last_call = w.last_call;
  numbered = omega (arith, w.numbered, length-append {0} made (probe ∷ []));
  probes = w.probes ∙ append_assoc made (probe ∷ []) (replicate (suc w.before_last) probe);
  there = there_from;
  last = w.last;
  whole = λ h. ap suc (w.whole h);
}
  where
    there_from : (i : ℕ) → length made ≤ i → i < w.last_call → is_there (os.answer i) ≡ true
    there_from i low high = elim (dec_lt (length made) i) [
      | yes later ↦ w.there i (omega (arith, length-append {0} made (probe ∷ []))) high
      | no same ↦
          subst (λ n. is_there (os.answer n) ≡ true) (let eq : length made ≡ i = omega arith in eq)
            first
    ]

there-outcome : (a : Answer) → is_there a ≡ true → (false, none) ≡ outcome a
there-outcome done h = refl
there-outcome forbidden h = refl
there-outcome gone h = cc
there-outcome (refused reason) h = cc

pub wait_for_process_group-Waited :
    (os : Os) (ticks : ℕ) (made : List Call)
    → Waited os ticks made (wait_for_process_group os ticks made)
unfolding wait_for_process_group
wait_for_process_group-Waited os zero made =
    poll_ind (Waited os 0 made) (os.answer (length made))
      (λ ended failure. ((ended, failure), calling made probe))
      (λ there. one_probe os 0 made (there-outcome _ there) (λ h. refl))
      (λ ended. one_probe os 0 made refl (λ h. refl))
wait_for_process_group-Waited os (suc ticks) made =
    poll_ind (Waited os (suc ticks) made) (os.answer (length made))
      (λ ended failure. ((ended, failure), calling made probe))
      (λ there.
        more_probes os ticks made there
          (wait_for_process_group-Waited os ticks (calling made probe)))
      (λ ended. one_probe os (suc ticks) made refl (λ h. cc))

pub length-Waited :
    {os : Os} {ticks : ℕ} {made : List Call} {result : (Bool × Option StopError) × List Call}
    (w : Waited os ticks made result)
    → length result.1 ≡ suc w.last_call
length-Waited {made = made} w =
    ap length w.probes
    ∙ omega (
      arith,
      length-append {0} made (replicate (suc w.before_last) probe),
      length-replicate {0} (suc w.before_last) probe,
      w.numbered,
    )
