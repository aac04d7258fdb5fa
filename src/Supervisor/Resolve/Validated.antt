-- ===== src/Supervisor/Resolve/Validated.antt =====
-- What the validation of internal/config/validate.go spares the supervisor: `processSpec` cannot fail.
use process_deck.Base.{
  ◌≡◌, refl, ◌∙◌, ap, inl, inr, true, not, Bool-cases, [], ◌∷◌, some, if_ind, arith,
}
use process_deck.Base.Result.{ok, Result-cases}
use process_deck.Base.Text.{Text, codes, same, member, same_iff}
use process_deck.Base.GoStrings.{trim_space, trim_prefix, to_upper}
use process_deck.Config.{Config}
use process_deck.Config.Validate.{
  ParseDuration, signal_name, validate_stop_signal, process_of, validate,
}
use process_deck.Config.Validate.Accepted.{
  validate-parts, validate_defaults-signal, validate_process-signal,
}
use process_deck.Runner.{Signal, Spec, parse_signal, term}
use process_deck.Supervisor.{Options, Runtime}
use process_deck.Supervisor.Resolve.{first_set, resolve_stop_signal, process_spec}

abbrev Parses : Text → Type 0
Parses value = (signal : Signal) × (parse_signal value ≡ ok signal)

parse_signal-nil : parse_signal [] ≡ ok term
unfolding parse_signal signal_name trim_space trim_prefix to_upper
parse_signal-nil = refl

parse_signal-term : parse_signal (codes "TERM") ≡ ok term
unfolding parse_signal signal_name trim_space trim_prefix to_upper same
parse_signal-term = refl

named-Parses :
    (value : Text)
    → member
        (signal_name value)
        (codes "TERM" ∷ codes "INT" ∷ codes "KILL" ∷ codes "HUP" ∷ codes "QUIT" ∷ [])
      ≡ true
    → Parses value
unfolding parse_signal member
named-Parses value m = elim (Result-cases (parse_signal value)) [
  | inr found ↦ found
  | inl (e, refused) ↦ absurd (ground arith)
]

valid-Parses : (path value : Text) → validate_stop_signal path value ≡ ok tt → Parses value
unfolding validate_stop_signal
valid-Parses path value h = elim (Bool-cases (same value [])) [
  | inl empty ↦ (term, ap parse_signal ((same_iff value []).0 empty) ∙ parse_signal-nil)
  | inr given ↦ named-Parses value (ground arith)
]

-- In a configuration that `Validate` accepts, every process has a specification: `processSpec` finds
-- the stop signal, whether it is the process's own, the default of the file or the program's.
pub process_spec-of_valid :
    (parse : ParseDuration) (join : Text → Text → Text) (c : Config) (options : Options)
    (name : Text) (r : Runtime)
    → validate parse c ≡ ok tt
    → process_of c.processes name ≡ some r.config
    → (spec : Spec) × (process_spec parse join c options r ≡ ok spec)
unfolding process_spec resolve_stop_signal first_set
process_spec-of_valid parse join c options name r accepted found =
    let (defaults_ok, process_ok) = validate-parts parse c name r.config accepted found in
    let own =
      valid-Parses _ r.config.stop_signal
        (validate_process-signal parse name r.config process_ok) in
    let default =
      valid-Parses _ c.defaults.stop_signal
        (validate_defaults-signal parse c.defaults defaults_ok) in
    let chosen : Parses (resolve_stop_signal c.defaults r.config) =
      if_ind Parses (not (same r.config.stop_signal [])) (λ _. own)
        (λ _.
          if_ind Parses (not (same c.defaults.stop_signal [])) (λ _. default)
            (λ _. (term, parse_signal-term))) in
    elim (Result-cases (process_spec parse join c options r)) [
      | inr built ↦ built
      | inl (e, refused) ↦ absurd (ground (arith, chosen.1))
    ]
