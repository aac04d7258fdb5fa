-- ===== src/Supervisor/Steps.antt =====
-- The supervisor as a step relation: each critical section of internal/supervisor/supervisor.go is a
-- step, and the goroutines interleave the steps in any order.
pub mod Shutdown
use process_deck.Base.{
  ℕ, ◌==◌, ◌≡◌, refl, sym, ap, subst, ◌∙◌, ◌⊎◌, inl, inr, Bool, true, false, not, ◌&&◌, ◌||◌, List,
  [], ◌∷◌, Option, none, some, if◌then◌else◌, if_ind, option_ind, Option-cases, arith,
}
use process_deck.Base.Result.{Result, ok, err, result_ind}
use process_deck.Base.Text.{Text, same}
use process_deck.Graph.{validate_graph}
use process_deck.Config.{Config, Process, dependency_map, process_names}
use process_deck.Config.Validate.{ParseDuration, process_of}
use process_deck.Runner.{ExitResult, LogLine}
use process_deck.Supervisor.{
  SupError, Options, Runtime, Sup, State, runtime_of, emit_events, no_event, supervisor_stopped,
}
use process_deck.Supervisor.Sections.{
  is_some, check_done, skip_process, Launch, start_or_fail, process_exit, backoff_passed,
  forward_log, has_generation,
}
use process_deck.Supervisor.Commands.{
  fresh_runtime, fresh_runtimes, new, start_manual, request_stops, Stops, stop_one,
}
use process_deck.Supervisor.Lifecycle.{run_begin, run_done, run_end, close_events}
use process_deck.Supervisor.Inv.{
  IsConsistent, Inv, IsValid, waiters_of, check_done-IsValid, emit_events-IsValid,
}
use process_deck.Supervisor.Inv.Launching.{start_or_fail-IsValid}
use process_deck.Supervisor.Inv.Ending.{
  process_exit-IsValid, skip_process-IsValid, forward_log-IsValid, backoff_passed-IsValid,
}
use process_deck.Supervisor.Inv.Commanding.{
  request_stops-Inv, stop_one-IsValid, start_manual-IsValid,
}

-- The first loop of `stopProcesses`.
abbrev pub request_all : ℕ → List Text → Sup → Sup
request_all now order s =
    let (processes, events) = request_stops now s.processes order in
    emit_events events (record s { processes = processes })

-- `stopProcesses` is taken apart: other processes may end between its rounds. The first launch or
-- skip of a process by `startInitial` finds no runner and no restart; a goroutine of `waitProcess` has
-- the process and the generation that it waits for.
pub data Step (parse : ParseDuration) (join : Text → Text → Text) : Sup → Sup → Type 0 where
  begun : {s : Sup} → Step parse join s (run_begin s).0
  context_ends : {s : Sup} → Step parse join s (record s { ctx_done = true })
  started :
      {s : Sup} (now : ℕ) (launch : Launch) (name : Text) (r : Runtime)
      → runtime_of s.processes name ≡ some r
      → is_some r.runner ≡ false
      → Step parse join s (start_or_fail parse join now launch s name).0
  skips :
      {s : Sup} (now : ℕ) (name : Text) (r : Runtime)
      → runtime_of s.processes name ≡ some r
      → is_some r.runner ≡ false
      → r.restarting ≡ false
      → Step parse join s (skip_process now s name)
  start_commanded :
      {s : Sup} (now : ℕ) (launch : Launch) (name : Text)
      → Step parse join s (start_manual parse join now launch s name).0
  stops_requested :
      {s : Sup} (now : ℕ) (order : List Text) → Step parse join s (request_all now order s)
  stop_done :
      {s : Sup} (now : ℕ) (stops : Stops) (name : Text)
      → Step parse join s (stop_one now stops s name).0
  done_checked : {s : Sup} → Step parse join s (check_done s)
  stop_all_begun : {s : Sup} → Step parse join s (record s { stopping = true })
  process_ended :
      {s : Sup} (now g : ℕ) (name : Text) (r : Runtime) (result : ExitResult)
      → runtime_of s.processes name ≡ some r
      → has_generation (waiters_of name s.waiting) g ≡ true
      → Step parse join s (process_exit now s name g result)
  backoff_ended :
      {s : Sup} (now g : ℕ) (launch : Launch) (name : Text)
      → Step parse join s (backoff_passed parse join now launch s name g)
  logged : {s : Sup} (name : Text) (line : LogLine) → Step parse join s (forward_log s name line)
  idle_seen : {s : Sup} → Step parse join s (run_done s).0
  run_ended : {s : Sup} (now : ℕ) → Step parse join s (run_end now s)

pub data Reach (parse : ParseDuration) (join : Text → Text → Text) (s : Sup) : Sup → Type 0 where
  here : Reach parse join s s
  then_step : {t u : Sup} → Reach parse join s t → Step parse join t u → Reach parse join s u

-- A process before its first launch.
fresh-IsConsistent :
    (cfg : Config) (name : Text) (process : Process)
    → IsConsistent (fresh_runtime cfg name process) []
unfolding fresh_runtime is_some
fresh-IsConsistent cfg name process = record {
  scheduled = λ h. refl;
  with_runner = λ h. absurd (ground arith);
  without_runner = λ h. (refl, inl refl);
  one_waiter = inl refl;
}

fresh_runtimes-lookup :
    (cfg : Config) (names : List Text) (name : Text) (r : Runtime)
    → runtime_of (fresh_runtimes cfg names) name ≡ some r
    → IsConsistent r []
unfolding fresh_runtimes runtime_of
fresh_runtimes-lookup cfg [] name r h = absurd (ground arith)
fresh_runtimes-lookup cfg (n ∷ names) name r h =
    option_ind (λ (ps : List (Text × Runtime)). runtime_of ps name ≡ some r → IsConsistent r [])
      (process_of cfg.processes n) (λ _. fresh_runtimes-lookup cfg names name r)
      (λ process _.
        if_ind (λ (o : Option Runtime). o ≡ some r → IsConsistent r []) (same n name)
          (λ _ e.
            subst (λ o. elim o [ none ↦ Unit | some q ↦ IsConsistent q [] ]) e
              (fresh-IsConsistent cfg n process))
          (λ _. fresh_runtimes-lookup cfg names name r))
      h

abbrev MadeValid : Result SupError Sup → Type 0
MadeValid (err e) = Unit
MadeValid (ok s) = IsValid s

pub new-IsValid : (cfg : Config) (options : Options) (s : Sup) → new cfg options ≡ ok s → IsValid s
unfolding new
new-IsValid cfg options s =
    result_ind (λ (o : Result SupError Sup). o ≡ ok s → IsValid s)
      (validate_graph (dependency_map cfg)) (λ _ _ e. subst MadeValid e tt)
      (λ _ _ e. subst MadeValid e (record {
        each = λ name r h. fresh_runtimes-lookup cfg (process_names cfg) name r h;
        rest = λ h. absurd (ground arith);
        signalled = refl;
      }))

waiter-runner :
    {waiters : List ℕ} (g : ℕ) (r : Runtime)
    → IsConsistent r waiters
    → has_generation waiters g ≡ true
    → is_some r.runner ≡ true
unfolding has_generation
waiter-runner g r c waits = elim c.one_waiter [
  | inl none_waits ↦ absurd (ground arith)
  | inr (one, launched) ↦ launched
]

pub Step-IsValid :
    (parse : ParseDuration) (join : Text → Text → Text) {s t : Sup}
    → Step parse join s t
    → IsValid s
    → IsValid t
unfolding run_begin run_done run_end close_events backoff_passed forward_log
Step-IsValid parse join {s} begun v =
    if_ind (λ (t : Sup × Option SupError). IsValid t.0) s.run_ctx (λ _. v) (λ _. v)
Step-IsValid parse join context_ends v = v
Step-IsValid parse join {s} (started now launch name r found idle) v =
    start_or_fail-IsValid parse join s v name r found idle now launch
Step-IsValid parse join {s} (skips now name r found idle calm) v =
    skip_process-IsValid s v name r found now idle calm
Step-IsValid parse join {s} (start_commanded now launch name) v =
    start_manual-IsValid parse join now launch s name v
Step-IsValid parse join {s} (stops_requested now order) v =
    emit_events-IsValid _ _ (request_stops-Inv now order s.processes v)
Step-IsValid parse join {s} (stop_done now stops name) v = stop_one-IsValid now stops s name v
Step-IsValid parse join {s} done_checked v = check_done-IsValid s v
Step-IsValid parse join stop_all_begun v = v
Step-IsValid parse join {s} (process_ended now g name r result found waits) v =
    process_exit-IsValid s v name r found now g result
      (λ current. waiter-runner g r (v.each name r found) waits)
Step-IsValid parse join {s} (backoff_ended now g launch name) v =
    elim (Option-cases (runtime_of s.processes name)) [
      | inl missing ↦ rw (backoff_passed, missing) v
      | inr (r, found) ↦ backoff_passed-IsValid s v name r found parse join now g launch
    ]
Step-IsValid parse join {s} (logged name line) v =
    elim (Option-cases (runtime_of s.processes name)) [
      | inl missing ↦ rw (forward_log, missing) v
      | inr (r, found) ↦ forward_log-IsValid s v name r found line
    ]
Step-IsValid parse join {s} idle_seen v =
    if_ind (λ (t : Sup × Bool × Option SupError). IsValid t.0) s.idle (λ _. v) (λ _. v)
Step-IsValid parse join {s} (run_ended now) v =
    let ended = emit_events (no_event supervisor_stopped [] now ∷ []) s in
    if_ind IsValid ended.events_closed
      (λ _. emit_events-IsValid (no_event supervisor_stopped [] now ∷ []) s v)
      (λ _. emit_events-IsValid (no_event supervisor_stopped [] now ∷ []) s v)

-- What a supervisor reaches that `New` has made, by any sections in any order, is valid: the
-- supervisor waits for at most one run of each process, a process that it waits for has a runner, a
-- process with a runner is starting, running or stopping and no restart of it is scheduled, and the
-- supervisor is idle only while every process is finished.
pub Reach-IsValid :
    (parse : ParseDuration) (join : Text → Text → Text) (cfg : Config) (options : Options)
    (s t : Sup)
    → new cfg options ≡ ok s
    → Reach parse join s t
    → IsValid t
Reach-IsValid parse join cfg options s t made here = new-IsValid cfg options s made
Reach-IsValid parse join cfg options s t made (then_step {t = u} reach step) =
    Step-IsValid parse join step (Reach-IsValid parse join cfg options s u made reach)
