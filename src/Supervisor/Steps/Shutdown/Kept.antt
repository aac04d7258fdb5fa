-- ===== src/Supervisor/Steps/Shutdown/Kept.antt =====
-- The sections that leave `stopping` and the waiting goroutines as they are.
use process_deck.Base.{
  ℕ, ◌≡◌, refl, sym, ap, subst, ◌∙◌, Bool, true, not, ◌||◌, List, [], ◌∷◌, Option, if_ind,
  option_ind, arith,
}
use process_deck.Base.Result.{err}
use process_deck.Base.Text.{Text}
use process_deck.Config.Validate.{ParseDuration}
use process_deck.Runner.{LogLine}
use process_deck.Supervisor.{
  SupError, supervisor_stopping, Runtime, Sup, Event, runtime_of, emit_events, with_runtime,
}
use process_deck.Supervisor.Sections.{
  check_done, skip_process, mark_start_failed, Launch, prepare_start, start_process,
  launch_prepared, fail_start, start_or_fail, backoff_passed, forward_log, has_generation, remove,
  all_done, restart_valid,
}
use process_deck.Supervisor.Commands.{start_manual, command_context}
use process_deck.Supervisor.Inv.{waiters_of}

-- The supervisor is still stopping, and waits for no run that it did not wait for before.
pub record IsShrunk (s t : Sup) : Type 0 where
  pub still : t.stopping ≡ true
  pub no_new_run :
      (name : Text) (g : ℕ)
      → has_generation (waiters_of name t.waiting) g ≡ true
      → has_generation (waiters_of name s.waiting) g ≡ true

pub IsShrunk-trans : {s t u : Sup} → IsShrunk s t → IsShrunk t u → IsShrunk s u
IsShrunk-trans a b = record {
  still = b.still;
  no_new_run = λ name g h. a.no_new_run name g (b.no_new_run name g h);
}

-- What a section leaves as it is.
pub record Keeps (flag : Bool) (waiting : List (Text × ℕ)) (t : Sup) : Type 0 where
  pub stop : t.stopping ≡ flag
  pub wait : t.waiting ≡ waiting

pub Keeps-self : (s : Sup) → Keeps s.stopping s.waiting s
Keeps-self s = record { stop = refl; wait = refl }

pub Keeps-IsShrunk : {s t : Sup} → s.stopping ≡ true → Keeps s.stopping s.waiting t → IsShrunk s t
Keeps-IsShrunk {s} {t} h k = record {
  still = k.stop ∙ h;
  no_new_run =
      λ name g waits. subst (λ w. has_generation (waiters_of name w) g ≡ true) k.wait waits;
}

pub remove-fewer :
    (name other : Text) (g h : ℕ) (waiting : List (Text × ℕ))
    → has_generation (waiters_of name (remove other h waiting)) g ≡ true
    → has_generation (waiters_of name waiting) g ≡ true
unfolding has_generation
remove-fewer name other g h [] waits = waits
remove-fewer name other g h ((n, k) ∷ rest) waits = ground (arith, remove-fewer name other g h rest)

module _ {flag : Bool} {waiting : List (Text × ℕ)} where
  pub emit_events-Keeps :
      (events : List Event) (s : Sup)
      → Keeps flag waiting s
      → Keeps flag waiting (emit_events events s)
  unfolding emit_events
  emit_events-Keeps events s k =
      if_ind (Keeps flag waiting) s.events_closed (λ _. k)
        (λ _. record { stop = k.stop; wait = k.wait })

  pub check_done-Keeps : (s : Sup) → Keeps flag waiting s → Keeps flag waiting (check_done s)
  unfolding check_done
  check_done-Keeps s k =
      if_ind (Keeps flag waiting) (not (all_done s.processes)) (λ _. k)
        λ _.
          if_ind (Keeps flag waiting) s.idle (λ _. k) (λ _. record { stop = k.stop; wait = k.wait })

  pub written-Keeps :
      (s : Sup) (name : Text) (r : Runtime)
      → Keeps flag waiting s
      → Keeps flag waiting (with_runtime name r s)
  written-Keeps s name r k = record { stop = k.stop; wait = k.wait }

  pub skip_process-Keeps :
      (now : ℕ) (s : Sup) (name : Text)
      → Keeps flag waiting s
      → Keeps flag waiting (skip_process now s name)
  unfolding skip_process
  skip_process-Keeps now s name k =
      option_ind (Keeps flag waiting) (runtime_of s.processes name) (λ _. k)
        λ r _. emit_events-Keeps _ _ (record { stop = k.stop; wait = k.wait })

  pub mark_start_failed-Keeps :
      (now : ℕ) (s : Sup) (name : Text) (error : SupError)
      → Keeps flag waiting s
      → Keeps flag waiting (mark_start_failed now s name error)
  unfolding mark_start_failed
  mark_start_failed-Keeps now s name error k =
      option_ind (Keeps flag waiting) (runtime_of s.processes name) (λ _. k)
        λ r _. emit_events-Keeps _ _ (check_done-Keeps _ (record { stop = k.stop; wait = k.wait }))

  pub forward_log-Keeps :
      (s : Sup) (name : Text) (line : LogLine)
      → Keeps flag waiting s
      → Keeps flag waiting (forward_log s name line)
  unfolding forward_log
  forward_log-Keeps s name line k =
      option_ind (Keeps flag waiting) (runtime_of s.processes name) (λ _. k)
        λ r _. emit_events-Keeps _ _ (written-Keeps s name _ k)

module _ (parse : ParseDuration) (join : Text → Text → Text) (now : ℕ) (launch : Launch) (s : Sup)
    (name : Text) (h : s.stopping ≡ true) where
  -- `startProcess` refuses while the supervisor is stopping.
  pub prepare_start-refused : prepare_start parse join now s name ≡ (s, err supervisor_stopping)
  unfolding prepare_start
  prepare_start-refused = rw (ap (λ b. b || s.ctx_done) h) refl

  pub start_or_fail-Keeps :
      Keeps s.stopping s.waiting (start_or_fail parse join now launch s name).0
  unfolding start_or_fail start_process launch_prepared fail_start
  start_or_fail-Keeps =
      subst
        (λ p.
          Keeps s.stopping s.waiting (fail_start now name (launch_prepared now launch name p)).0)
        (sym prepare_start-refused)
        (mark_start_failed-Keeps now s name supervisor_stopping (Keeps-self s))

  pub start_manual-Keeps : Keeps s.stopping s.waiting (start_manual parse join now launch s name).0
  unfolding start_manual command_context
  start_manual-Keeps =
      option_ind (λ (t : Sup × Option SupError). Keeps s.stopping s.waiting t.0) (command_context s)
        (λ e. absurd (ground arith)) (λ e _. Keeps-self s)

  pub backoff_passed-Keeps :
      (g : ℕ) → Keeps s.stopping s.waiting (backoff_passed parse join now launch s name g)
  unfolding backoff_passed restart_valid
  backoff_passed-Keeps g =
      option_ind (Keeps s.stopping s.waiting) (runtime_of s.processes name)
        (λ _. record { stop = refl; wait = refl })
        λ r _.
          if_ind (Keeps s.stopping s.waiting) (restart_valid s r g)
            (λ wanted. absurd (ground arith)) (λ _. record { stop = refl; wait = refl })
