-- ===== src/Supervisor/Inv/Launching/Writes.antt =====
-- What the writes of a launch change in a process.
use process_deck.Base.{
  ℕ, ◌+◌, ◌%◌, ◌≡◌, refl, sym, ap, subst, ◌∙◌, inl, false, List, [], none, some, if_ind, arith,
}
use process_deck.Base.Text.{Text}
use process_deck.LogBuf.{u64}
use process_deck.Supervisor.{
  State, starting, failed, terminal_state, same_state, same_state_eq, Runtime, Sup, Event, SupError,
  runtime_of, with_runtime,
}
use process_deck.Supervisor.Sections.{
  set_state, cancel_restart, is_some, next_generation, mark_start_failed,
}
use process_deck.Supervisor.Inv.{
  waiters_of, IsConsistent, IsValid, Inv-write, check_done-IsValid, emit_events-IsValid,
}

pub set_state_state :
    (now : ℕ) (r : Runtime) (state : State) → (set_state now r state).0 ≡ record r { state = state }
unfolding set_state
set_state_state now r state =
    if_ind (λ (t : Runtime × List Event). t.0 ≡ record r { state = state })
      (same_state r.state state)
      (λ e. ap (λ t. record r { state = t }) (same_state_eq r.state state e)) (λ _. refl)

pub IsConsistent-set_state :
    (now : ℕ) (r : Runtime) (state : State) (waiters : List ℕ)
    → IsConsistent (record r { state = state }) waiters
    → IsConsistent (set_state now r state).0 waiters
IsConsistent-set_state now r state waiters c =
    subst (λ q. IsConsistent q waiters) (sym (set_state_state now r state)) c

pub cancel_restart-fields :
    (r : Runtime)
    → ((cancel_restart r).restarting ≡ false)
      × ((cancel_restart r).state ≡ r.state)
      × ((cancel_restart r).runner ≡ r.runner)
      × ((cancel_restart r).pid ≡ r.pid)
      × ((cancel_restart r).generation ≡ r.generation)
unfolding cancel_restart
cancel_restart-fields r = ground arith

module _ (s : Sup) (v : IsValid s) (name : Text) (r : Runtime)
    (found : runtime_of s.processes name ≡ some r) where
  -- A process with no runner has no waiting goroutine.
  pub no_waiters : is_some r.runner ≡ false → waiters_of name s.waiting ≡ []
  no_waiters idle = ground (arith, v.each name r found)

  pub failed_write :
      (r' : Runtime)
      → r'.state ≡ failed
      → r'.runner ≡ none
      → r'.restarting ≡ false
      → r'.pid ≡ 0
      → waiters_of name s.waiting ≡ []
      → IsValid (with_runtime name r' s)
  unfolding is_some terminal_state
  failed_write r' st ru re pi w =
      Inv-write name r r' v found
        (record {
          scheduled = λ h. cc;
          with_runner = λ h. ground arith;
          without_runner = λ h. (pi, inl (ground arith));
          one_waiter = inl w;
        })
        (λ other h. refl) (λ idle. (idle, ground arith)) v.signalled

  -- `markStartFailed` leaves no run of the process behind.
  pub mark_start_failed-IsValid :
      (now : ℕ) (error : SupError)
      → waiters_of name s.waiting ≡ []
      → IsValid (mark_start_failed now s name error)
  unfolding mark_start_failed
  mark_start_failed-IsValid now error w =
      rw (found, mark_start_failed)
        (emit_events-IsValid _ _ (
          check_done-IsValid _ (
            failed_write _ (ap (λ q. q.state) (set_state_state now _ failed))
              (ap (λ q. q.runner) (set_state_state now _ failed))
              (ap (λ q. q.restarting) (set_state_state now _ failed))
              (ap (λ q. q.pid) (set_state_state now _ failed)) w)))

pub next_generation-fields :
    (now : ℕ) (r : Runtime)
    → let r1 = (next_generation now r).0 in
      (r1.state ≡ starting) × (r1.restarting ≡ false) × (r1.runner ≡ r.runner) × (r1.pid ≡ r.pid)
unfolding next_generation
next_generation-fields now r =
    let same =
      set_state_state now
        (record (cancel_restart r) {
          generation = ((cancel_restart r).generation + 1) % u64;
          stop_requested = false;
          exit_code = none;
        })
        starting in
    let (re, st, ru, pi, ge) = cancel_restart-fields r in
    (
      ap (λ q. q.state) same,
      ap (λ q. q.restarting) same ∙ re,
      ap (λ q. q.runner) same ∙ ru,
      ap (λ q. q.pid) same ∙ pi,
    )
