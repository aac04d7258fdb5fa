-- ===== src/Main/Run/Planned.antt =====
-- Which configurations a dry run accepts.
use process_deck.Base.{ℕ, ◌≡◌, ◌↔◌, true, false, List, [], Option, none, some, arith, inl, inr}
use process_deck.Base.Result.{Result, ok, err, Result-cases, >>=-eq-ok}
use process_deck.Base.Text.{Text}
use process_deck.Graph.{Deps, GraphError, validate_graph, startup_layers}
use process_deck.Graph.Layers.{startup_layers-IsLayering}
use process_deck.Config.{Config, dependency_map}
use process_deck.Config.Validate.{ParseDuration, validate}
use process_deck.Session.Launch.{load_valid}
use process_deck.Session.Launch.Started.{load_valid-parts}
use process_deck.Main.{print_dry_run, display_path}
use process_deck.Main.Run.{Flags, Machine, parsed, config_path_of, run_dry, run}

module _ (show : ℕ → Text) (path_base : Text → Text) (getwd : Option Text) (displayed : Text)
    (cfg : Config) (deps : Deps) where
  print_dry_run-plans :
      validate_graph deps ≡ ok tt
      → (lines : List Text) × (print_dry_run show path_base getwd displayed cfg deps ≡ ok lines)
  unfolding print_dry_run
  print_dry_run-plans accepted =
      let (layers, layered, _) = startup_layers-IsLayering deps accepted in
      elim (Result-cases (print_dry_run show path_base getwd displayed cfg deps)) [
        | inl (e, failed) ↦ absurd (ground (arith, layered))
        | inr planned ↦ planned
      ]

  print_dry_run-accepted :
      {lines : List Text}
      → print_dry_run show path_base getwd displayed cfg deps ≡ ok lines
      → validate_graph deps ≡ ok tt
  unfolding print_dry_run startup_layers
  print_dry_run-accepted h =
      let (layers, layered, _) = >>=-eq-ok (startup_layers deps) _ h in
      let (_, accepted, _) = >>=-eq-ok (validate_graph deps) _ layered in accepted

module _ (parse : ParseDuration) (m : Machine) (path : Text) where
  abbrev plan : Config → Result GraphError (List Text)
  plan cfg =
      print_dry_run m.show_count m.path_base
        (elim m.getwd [ err reason ↦ none | ok dir ↦ some dir ]) (display_path (m.rel path) path)
        cfg (dependency_map cfg)

  launches_nothing : (run_dry parse m path).launch ≡ none
  unfolding run_dry
  launches_nothing = ground arith

  run_dry-plans :
      (cfg : Config)
      → load_valid parse m.session path ≡ ok cfg
      → (run_dry parse m path).result ≡ some none
  unfolding run_dry
  run_dry-plans cfg h =
      let (loaded, valid, acyclic) = load_valid-parts parse m.session path cfg h in
      let (lines, planned) =
        print_dry_run-plans m.show_count m.path_base
          (elim m.getwd [ err reason ↦ none | ok dir ↦ some dir ]) (display_path (m.rel path) path)
          cfg (dependency_map cfg) acyclic in
      ground (arith, loaded, valid, planned)

  run_dry-planned :
      (run_dry parse m path).result ≡ some none
      → (cfg : Config) × (load_valid parse m.session path ≡ ok cfg)
  unfolding run_dry load_valid
  run_dry-planned h = elim (Result-cases (m.session.load path)) [
    | inl (e, l) ↦ absurd (ground arith)
    | inr (cfg, l) ↦ elim (Result-cases (validate parse cfg)) [
      | inl (e, v) ↦ absurd (ground arith)
      | inr (_, v) ↦ elim (Result-cases (plan cfg)) [
        | inl (e, p) ↦ absurd (ground arith)
        | inr (lines, p) ↦
            let accepted =
              print_dry_run-accepted m.show_count m.path_base
                (elim m.getwd [ err reason ↦ none | ok dir ↦ some dir ])
                (display_path (m.rel path) path) cfg (dependency_map cfg) p in
            (cfg, ground (arith, accepted))
      ]
    ]
  ]

-- A dry run launches nothing, and it succeeds for just the configurations with which a new session
-- would be launched.
pub run-dry_run :
    (parse : ParseDuration) (m : Machine) (flags : Flags) (path : Text)
    → flags.args ≡ []
    → flags.show_version ≡ false
    → flags.dry_run ≡ true
    → config_path_of m flags.config_path ≡ ok path
    → ((run parse m (parsed flags)).launch ≡ none)
      × (((run parse m (parsed flags)).result ≡ some none)
          ↔ ((cfg : Config) × (load_valid parse m.session path ≡ ok cfg)))
unfolding run
run-dry_run parse m flags path no_args no_version dry found =
    let is_dry : run parse m (parsed flags) ≡ run_dry parse m path = ground arith in
    rw is_dry (
      launches_nothing parse m path,
      (run_dry-planned parse m path, λ (cfg, h). run_dry-plans parse m path cfg h),
    )
