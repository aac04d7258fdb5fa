-- ===== src/Supervisor/Inv/Ending.antt =====
-- The sections in which a process ends, is skipped or writes to its log keep the invariant.
mod Waiters
use process_deck.Base.{
  ℕ, ◌+◌, ◌==◌, ◌≡◌, ◌≢◌, refl, sym, ap, subst, ◌∙◌, inl, inr, true, false, not, List, [], ◌∷◌,
  Option, none, some, Bool-cases, if_ind, arith,
}
use process_deck.Base.Int.{ℤ}
use process_deck.Base.Text.{Text, same, same_iff}
use process_deck.Config.Validate.{ParseDuration}
use process_deck.Runner.{ExitResult, LogLine}
use process_deck.Supervisor.{
  State, pending, skipped, terminal_state, Runtime, Sup, runtime_of, with_runtime,
}
use process_deck.Supervisor.Sections.{
  set_state, is_some, remove, exit_state, wants_restart, schedule_restart, process_exit,
  forward_log, skip_process, Launch, backoff_passed, restart_valid,
}
use process_deck.Supervisor.Inv.{
  is_live, waiters_of, IsConsistent, is_done, IsValid, Inv-write, check_done-IsValid,
  emit_events-IsValid,
}
use process_deck.Supervisor.Inv.Launching.{
  set_state_state, IsConsistent-set_state, start_or_fail-IsValid,
}
use process_deck.Supervisor.Inv.Ending.Waiters.{
  waiters_of-remove_other, waiters_of-remove_none, waiters_of-remove_one, waiters_of-remove_ne,
  exit_state-ends, schedule_restart-fields, restart_valid-restarting,
}

module _ (s : Sup) (v : IsValid s) (name : Text) (r : Runtime)
    (found : runtime_of s.processes name ≡ some r) where
  -- An event of a goroutine that no longer waits for the current run.
  stale_exit-IsValid :
      (g : ℕ) → r.generation ≢ g → IsValid (record s { waiting = remove name g s.waiting })
  stale_exit-IsValid g stale = record {
    each = λ other p h. subst (IsConsistent p) (sym (same_waiters other)) (v.each other p h);
    rest = v.rest;
    signalled = v.signalled;
  }
    where
      own : waiters_of name (remove name g s.waiting) ≡ waiters_of name s.waiting
      own = elim (v.each name r found).one_waiter [
        | inl nobody ↦ waiters_of-remove_none name g s.waiting nobody ∙ sym nobody
        | inr (one, _) ↦
            waiters_of-remove_ne name g r.generation s.waiting (λ e. stale (sym e)) one ∙ sym one
      ]

      same_waiters :
          (other : Text) → waiters_of other (remove name g s.waiting) ≡ waiters_of other s.waiting
      same_waiters other = elim (Bool-cases (same name other)) [
        | inl here ↦
            subst (λ n. waiters_of n (remove name g s.waiting) ≡ waiters_of n s.waiting)
              ((same_iff name other).0 here) own
        | inr there ↦ waiters_of-remove_other name other g s.waiting there
      ]

  ended-IsValid :
      (g : ℕ) (r' : Runtime)
      → is_some r.runner ≡ true
      → r.generation ≡ g
      → IsConsistent r' []
      → IsValid (record (with_runtime name r' s) { waiting = remove name g s.waiting })
  unfolding terminal_state
  ended-IsValid g r' launched current c =
      Inv-write name r r' v found (subst (IsConsistent r') (sym nobody_left) c)
        (λ other h. waiters_of-remove_other name other g s.waiting h)
        (λ idle.
          absurd
            (ground (arith, v.rest idle name r found, (v.each name r found).with_runner launched)))
        v.signalled
    where
      nobody_left : waiters_of name (remove name g s.waiting) ≡ []
      nobody_left = elim (v.each name r found).one_waiter [
        | inl nobody ↦ waiters_of-remove_none name g s.waiting nobody
        | inr (one, _) ↦
            waiters_of-remove_one name g s.waiting
              (subst (λ k. waiters_of name s.waiting ≡ k ∷ []) current one)
      ]

  restarted :
      (now g : ℕ) (code : Option ℤ) (state : State)
      → IsConsistent
          (schedule_restart now g
            (set_state now (record r { pid = 0; exit_code = code; runner = none }) state).0).0
          []
  unfolding is_some
  restarted now g code state =
      let e = set_state_state now (record r { pid = 0; exit_code = code; runner = none }) state in
      let (st, re, ru, pi) =
        schedule_restart-fields now g
          (set_state now (record r { pid = 0; exit_code = code; runner = none }) state).0 in
      record {
        scheduled = λ h. st;
        with_runner = λ h. absurd (ground (arith, ru, ap (λ q. q.runner) e));
        without_runner = λ h. (pi ∙ ap (λ q. q.pid) e, inl (ground (arith, st)));
        one_waiter = inl refl;
      }

  finished_run :
      (now : ℕ) (code : Option ℤ) (state : State)
      → is_live state ≡ false
      → is_some r.runner ≡ true
      → IsConsistent
          (record (set_state now (record r { pid = 0; exit_code = code; runner = none }) state).0 {
            finished = some true;
          })
          []
  unfolding is_some
  finished_run now code state ends launched =
      let e = set_state_state now (record r { pid = 0; exit_code = code; runner = none }) state in
      record {
        scheduled = λ h. absurd (
            ground
              (arith, ap (λ q. q.restarting) e, ((v.each name r found).with_runner launched).1));
        with_runner = λ h. absurd (ground (arith, ap (λ q. q.runner) e));
        without_runner = λ h. (ap (λ q. q.pid) e, inl (ground (arith, ap (λ q. q.state) e)));
        one_waiter = inl refl;
      }

  -- The end of a process, with or without a restart.
  pub process_exit-IsValid :
      (now g : ℕ) (result : ExitResult)
      → (r.generation ≡ g → is_some r.runner ≡ true)
      → IsValid (process_exit now s name g result)
  unfolding process_exit
  process_exit-IsValid now g result launched =
      rw (found, process_exit)
        (if_ind IsValid (not (r.generation == g)) (λ stale. stale_exit-IsValid g (ground arith))
          (λ current.
            if_ind IsValid (wants_restart s r result)
              (λ _. emit_events-IsValid _ _ (
                ended-IsValid g _ (launched (ground arith)) (ground arith)
                  (restarted now g (some result.exit_code) (exit_state r result))))
              (λ _. emit_events-IsValid _ _ (
                check_done-IsValid _ (
                  ended-IsValid g _ (launched (ground arith)) (ground arith) (
                    finished_run now (some result.exit_code) (exit_state r result)
                      (exit_state-ends r result).0 (launched (ground arith))))))))

  -- A skipped process, which no runner has.
  pub skip_process-IsValid :
      (now : ℕ)
      → is_some r.runner ≡ false
      → r.restarting ≡ false
      → IsValid (skip_process now s name)
  unfolding skip_process terminal_state
  skip_process-IsValid now idle calm =
      let c = v.each name r found in
      rw (found, skip_process)
        (emit_events-IsValid _ _ (
          Inv-write name r _ v found
            (IsConsistent-set_state now r skipped (waiters_of name s.waiting) (record {
              scheduled = λ h. absurd (ground arith);
              with_runner = λ h. absurd (ground arith);
              without_runner = λ h. ((c.without_runner idle).0, inl refl);
              one_waiter = c.one_waiter;
            }))
            (λ other h. refl) (λ still. (still, skipped_done)) v.signalled))
    where
      skipped_done : is_done (set_state now r skipped).0 ≡ true
      skipped_done =
          subst (λ q. is_done q ≡ true) (sym (set_state_state now r skipped)) (ground arith)

  -- Output of a process changes its log only.
  pub forward_log-IsValid : (line : LogLine) → IsValid (forward_log s name line)
  unfolding forward_log
  forward_log-IsValid line =
      let c = v.each name r found in
      rw (found, forward_log)
        (emit_events-IsValid _ _ (
          Inv-write name r _ v found
            (record {
              scheduled = c.scheduled;
              with_runner = c.with_runner;
              without_runner = c.without_runner;
              one_waiter = c.one_waiter;
            })
            (λ other h. refl) (λ idle. (idle, v.rest idle name r found)) v.signalled))

  -- The end of a backoff: a restart that is still wanted finds no runner.
  pub backoff_passed-IsValid :
      (parse : ParseDuration) (join : Text → Text → Text) (now g : ℕ) (launch : Launch)
      → IsValid (backoff_passed parse join now launch s name g)
  unfolding backoff_passed
  backoff_passed-IsValid parse join now g launch =
      rw (found, backoff_passed)
        (if_ind IsValid (restart_valid s r g)
          (λ wanted.
            start_or_fail-IsValid parse join
              (record s { backing_off = remove name g s.backing_off }) v name r found
              (no_runner wanted) now launch)
          (λ _. v))
    where
      no_runner : restart_valid s r g ≡ true → is_some r.runner ≡ false
      no_runner wanted = elim (Bool-cases (is_some r.runner)) [
        | inr idle ↦ idle
        | inl launched ↦ absurd (
            ground (
              arith,
              restart_valid-restarting s r g wanted,
              ((v.each name r found).with_runner launched).1,
            ))
      ]
