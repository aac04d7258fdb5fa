-- ===== src/Supervisor/Inv/Launching.antt =====
-- The sections that launch a process keep the invariant, when no runner is there before.
mod Writes
use process_deck.Base.{
  ℕ, ◌+◌, ◌%◌, ◌≡◌, refl, sym, ap, subst, ◌∙◌, inl, inr, Bool, true, false, ◌||◌, List, [], ◌∷◌,
  Option, none, some, if_ind, arith,
}
use process_deck.Base.Result.{Result, ok, err}
use process_deck.Base.Text.{Text, same_self}
use process_deck.Config.Validate.{ParseDuration}
use process_deck.Runner.{Spec}
use process_deck.LogBuf.{u64}
use process_deck.Supervisor.{
  State, starting, running, failed, terminal_state, same_state, same_state_eq, Runtime, Sup, Event,
  SupError, launch_failed, runtime_of, with_runtime, emit_events,
}
use process_deck.Supervisor.Resolve.{process_spec}
use process_deck.Supervisor.Sections.{
  set_state, cancel_restart, is_some, next_generation, wake, Launch, launched, record_start,
  launch_prepared, fail_start, prepare_start, finish_start, start_process, start_or_fail,
  mark_start_failed,
}
use process_deck.Supervisor.Inv.{
  waiters_of, IsConsistent, IsValid, Inv-write, check_done-IsValid, emit_events-IsValid,
  emit_events-fields, runtime_of-write_self,
}
pub use Writes.{
  set_state_state, IsConsistent-set_state, cancel_restart-fields, no_waiters, failed_write,
  mark_start_failed-IsValid, next_generation-fields,
}

-- A process whose launch has begun: no goroutine waits for it.
pub record IsPrepared (s : Sup) (name : Text) (launched : Bool) : Type 0 where
  pub valid : IsValid s
  pub runtime : Runtime
  pub found : runtime_of s.processes name ≡ some runtime
  pub alone : waiters_of name s.waiting ≡ []
  pub runner_set : launched ≡ true → is_some runtime.runner ≡ true

module _ (s : Sup) (v : IsValid s) (name : Text) (r : Runtime)
    (found : runtime_of s.processes name ≡ some r) where
  -- The record of the next generation, with a runner or without one, wakes the supervisor.
  wake-IsPrepared :
      (r1 : Runtime) (events : List Event) (launched : Bool)
      → waiters_of name s.waiting ≡ []
      → r1.state ≡ starting
      → r1.restarting ≡ false
      → (is_some r1.runner ≡ false → r1.pid ≡ 0)
      → (launched ≡ true → is_some r1.runner ≡ true)
      → IsPrepared (emit_events events (with_runtime name r1 (wake s))) name launched
  unfolding terminal_state
  wake-IsPrepared r1 events launched w st re pi ru =
      let s1 = with_runtime name r1 (wake s) in
      let (procs, waits) = emit_events-fields events s1 in
      let same_waiting : s1.waiting ≡ s.waiting =
        if_ind (λ (t : Sup). t.waiting ≡ s.waiting) s.idle (λ _. refl) (λ _. refl) in
      let same_processes : (wake s).processes ≡ s.processes =
        if_ind (λ (t : Sup). t.processes ≡ s.processes) s.idle (λ _. refl) (λ _. refl) in
      let found' = ap (λ ps. runtime_of ps name) same_processes ∙ found in
      record {
        valid = emit_events-IsValid events s1 awake;
        runtime = r1;
        found =
            ap (λ ps. runtime_of ps name) procs
            ∙ runtime_of-write_self name r1 r (wake s).processes found';
        alone = ap (waiters_of name) (waits ∙ same_waiting) ∙ w;
        runner_set = ru;
      }
    where
      consistent : IsConsistent r1 (waiters_of name s.waiting)
      consistent = record {
        scheduled = λ h. cc;
        with_runner = λ h. (ground arith, re);
        without_runner = λ h. (pi h, inr st);
        one_waiter = inl w;
      }

      awake : IsValid (with_runtime name r1 (wake s))
      awake =
          if_ind (λ (t : Sup). IsValid (with_runtime name r1 t)) s.idle
            (λ _. Inv-write name r r1 v found consistent (λ _ _. refl) (λ h. cc) refl)
            (λ busy. Inv-write name r r1 v found consistent (λ _ _. refl) (λ h. cc) v.signalled)

  -- The section after a launch that succeeded: one goroutine waits, for the generation launched.
  pub finish_start-IsValid :
      (now pid : ℕ)
      → is_some r.runner ≡ true
      → waiters_of name s.waiting ≡ []
      → IsValid (finish_start now pid s name)
  unfolding finish_start terminal_state
  finish_start-IsValid now pid launched w =
      rw (found, finish_start)
        (emit_events-IsValid _ _ (
          Inv-write name r _ v found (IsConsistent-set_state now _ running _ started)
            (λ other h. rw h) (λ idle. absurd (busy idle)) v.signalled))
    where
      started :
          IsConsistent
            (record r { state = running; pid = pid; started_at = some now; reached_running = true })
            (waiters_of name ((name, r.generation) ∷ s.waiting))
      started = record {
        scheduled = λ h. absurd (ground (arith, ((v.each name r found).with_runner launched).1));
        with_runner = λ h. (refl, ((v.each name r found).with_runner launched).1);
        without_runner = λ h. absurd (ground arith);
        one_waiter = inr (rw (same_self name, w), launched);
      }

      busy : s.idle ≡ true → ⊥
      busy idle =
          ground (arith, v.rest idle name r found, (v.each name r found).with_runner launched)

abbrev is_ok : {E A : Type 0} → Result E A → Bool
is_ok (ok a) = true
is_ok (err e) = false

-- After a launch, failed or not: still valid.
fail_start-IsValid :
    (now : ℕ) (name : Text) (s : Sup) (failure : Option SupError)
    → IsPrepared s name false
    → IsValid (fail_start now name (s, failure)).0
unfolding fail_start
fail_start-IsValid now name s none p = p.valid
fail_start-IsValid now name s (some e) p =
    mark_start_failed-IsValid s p.valid name p.runtime p.found now e p.alone

launched-IsValid :
    (now : ℕ) (name : Text) (s : Sup) (answer : Result Text ℕ)
    → IsPrepared s name true
    → IsValid (fail_start now name (launched now name s answer)).0
unfolding launched
launched-IsValid now name s (err message) p =
    fail_start-IsValid now name s (some (launch_failed name message)) (record {
      valid = p.valid;
      runtime = p.runtime;
      found = p.found;
      alone = p.alone;
      runner_set = λ h. cc;
    })
launched-IsValid now name s (ok pid) p =
    unfold fail_start in
    finish_start-IsValid s p.valid name p.runtime p.found now pid (p.runner_set refl) p.alone

launch_prepared-IsValid :
    (now : ℕ) (launch : Launch) (name : Text) (s : Sup) (prepared : Result SupError Spec)
    → IsPrepared s name (is_ok prepared)
    → IsValid (fail_start now name (launch_prepared now launch name (s, prepared))).0
unfolding launch_prepared
launch_prepared-IsValid now launch name s (err e) p = fail_start-IsValid now name s (some e) p
launch_prepared-IsValid now launch name s (ok spec) p = launched-IsValid now name s (launch spec) p

module _ (parse : ParseDuration) (join : Text → Text → Text) (s : Sup) (v : IsValid s) (name : Text)
    (r : Runtime) (found : runtime_of s.processes name ≡ some r)
    (idle : is_some r.runner ≡ false) where
  record_start-IsPrepared :
      (now : ℕ) (spec : Result SupError Spec)
      → let (r1, changed) = next_generation now r in
        let t = record_start name changed r1 (wake s) spec in IsPrepared t.0 name (is_ok t.1)
  unfolding record_start is_some
  record_start-IsPrepared now (err e) =
      let (st, re, ru, pi) = next_generation-fields now r in
      wake-IsPrepared s v name r found (next_generation now r).0 (next_generation now r).1 false
        (no_waiters s v name r found idle) st re
        (λ h. pi ∙ ((v.each name r found).without_runner idle).0) (λ h. cc)
  record_start-IsPrepared now (ok spec) =
      let (st, re, ru, pi) = next_generation-fields now r in
      wake-IsPrepared s v name r found _ (next_generation now r).1 true
        (no_waiters s v name r found idle) st re (λ h. absurd (ground arith)) (λ h. refl)

  prepare_start-IsPrepared :
      (now : ℕ)
      → IsPrepared
          (prepare_start parse join now s name).0
          name
          (is_ok (prepare_start parse join now s name).1)
  unfolding prepare_start
  prepare_start-IsPrepared now =
      if_ind (λ (t : Sup × Result SupError Spec). IsPrepared t.0 name (is_ok t.1))
        (s.stopping || s.ctx_done)
        (λ _. record {
          valid = v;
          runtime = r;
          found = found;
          alone = no_waiters s v name r found idle;
          runner_set = λ h. cc;
        })
        (λ _. rw found (
          record_start-IsPrepared now
            (process_spec parse join s.cfg s.options (next_generation now r).0)))

  -- A launch keeps the invariant, whatever becomes of it.
  pub start_or_fail-IsValid :
      (now : ℕ) (launch : Launch) → IsValid (start_or_fail parse join now launch s name).0
  unfolding start_or_fail start_process
  start_or_fail-IsValid now launch =
      launch_prepared-IsValid now launch name _ _ (prepare_start-IsPrepared now)
