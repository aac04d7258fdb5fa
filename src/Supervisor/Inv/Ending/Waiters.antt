-- ===== src/Supervisor/Inv/Ending/Waiters.antt =====
-- The goroutines that are left when one has ended, and what an ended process is.
use process_deck.Base.{ℕ, ◌+◌, ◌≡◌, ◌≢◌, refl, ap, true, false, List, [], ◌∷◌, none, some, arith}
use process_deck.Base.Text.{Text, same, same_iff}
use process_deck.Runner.{ExitResult}
use process_deck.Supervisor.{pending, terminal_state, Runtime, Sup}
use process_deck.Supervisor.Sections.{remove, exit_state, schedule_restart, restart_valid}
use process_deck.Supervisor.Inv.{is_live, waiters_of}
use process_deck.Supervisor.Inv.Launching.{set_state_state}

pub waiters_of-remove_other :
    (name other : Text) (g : ℕ) (w : List (Text × ℕ))
    → same name other ≡ false
    → waiters_of other (remove name g w) ≡ waiters_of other w
waiters_of-remove_other name other g [] h = refl
waiters_of-remove_other name other g ((n, k) ∷ w) h = ground (
  arith,
  same_iff n name,
  same_iff n other,
  same_iff name other,
  waiters_of-remove_other name other g w,
)

pub waiters_of-remove_none :
    (name : Text) (g : ℕ) (w : List (Text × ℕ))
    → waiters_of name w ≡ []
    → waiters_of name (remove name g w) ≡ []
waiters_of-remove_none name g [] h = refl
waiters_of-remove_none name g ((n, k) ∷ w) h = ground (arith, waiters_of-remove_none name g w)

pub waiters_of-remove_one :
    (name : Text) (g : ℕ) (w : List (Text × ℕ))
    → waiters_of name w ≡ g ∷ []
    → waiters_of name (remove name g w) ≡ []
waiters_of-remove_one name g [] h = cc
waiters_of-remove_one name g ((n, k) ∷ w) h = ground (arith, waiters_of-remove_one name g w)

pub waiters_of-remove_ne :
    (name : Text) (g k : ℕ) (w : List (Text × ℕ))
    → g ≢ k
    → waiters_of name w ≡ k ∷ []
    → waiters_of name (remove name g w) ≡ k ∷ []
waiters_of-remove_ne name g k [] ne h = cc
waiters_of-remove_ne name g k ((n, j) ∷ w) ne h =
    ground (arith, waiters_of-remove_none name g w, waiters_of-remove_ne name g k w)

pub exit_state-ends :
    (r : Runtime) (result : ExitResult)
    → (is_live (exit_state r result) ≡ false) × (terminal_state (exit_state r result) ≡ true)
unfolding exit_state terminal_state
exit_state-ends r result = ground arith

pub schedule_restart-fields :
    (now g : ℕ) (r : Runtime)
    → let r2 = (schedule_restart now g r).0 in
      (r2.state ≡ pending) × (r2.restarting ≡ true) × (r2.runner ≡ r.runner) × (r2.pid ≡ r.pid)
unfolding schedule_restart
schedule_restart-fields now g r =
    let e =
      set_state_state now
        (record r {
          restarts = r.restarts + 1;
          restarting = true;
          exit_code = none;
          restart_cancel = some g;
        })
        pending in
    (ap (λ q. q.state) e, ap (λ q. q.restarting) e, ap (λ q. q.runner) e, ap (λ q. q.pid) e)

pub restart_valid-restarting :
    (s : Sup) (r : Runtime) (g : ℕ) → restart_valid s r g ≡ true → r.restarting ≡ true
unfolding restart_valid
restart_valid-restarting s r g h = ground arith
