-- ===== src/Config/Validate/Accepted.antt =====
-- What a configuration satisfies that internal/config/validate.go accepts.
use process_deck.Base.{◌≡◌, ◌∙◌, true, List, [], ◌∷◌, ◌++◌, some, arith}
use process_deck.Base.Result.{ok}
use process_deck.Base.Text.{Text, codes, member, same_iff, same_sym, member-sort}
use process_deck.Config.{Config, Defaults, Process, process_names, names_of}
use process_deck.Config.Validate.{
  ParseDuration, validate_stop_signal, validate_defaults, validate_process, process_of,
  validate_named, validate,
}

pub validate_defaults-signal :
    (parse : ParseDuration) (d : Defaults)
    → validate_defaults parse d ≡ ok tt
    → validate_stop_signal (codes "defaults.stop_signal") d.stop_signal ≡ ok tt
unfolding validate_defaults
validate_defaults-signal parse d h = ground arith

pub validate_process-signal :
    (parse : ParseDuration) (name : Text) (p : Process)
    → validate_process parse name p ≡ ok tt
    → validate_stop_signal
        (codes "processes." ++ name ++ codes "." ++ codes "stop_signal")
        p.stop_signal
      ≡ ok tt
unfolding validate_process
validate_process-signal parse name p h = ground arith

validate_named-process :
    (parse : ParseDuration) (c : Config) (name : Text) (p : Process) (names : List Text)
    → process_of c.processes name ≡ some p
    → validate_named parse c names ≡ ok tt
    → member name names ≡ true
    → validate_process parse name p ≡ ok tt
unfolding validate_named member
validate_named-process parse c name p [] found h m = absurd (ground arith)
validate_named-process parse c name p (n ∷ names) found h m =
    ground (arith, same_iff name n, validate_named-process parse c name p names found)

process_of-member :
    (name : Text) (p : Process) (processes : List (Text × Process))
    → process_of processes name ≡ some p
    → member name (names_of processes) ≡ true
unfolding process_of names_of member
process_of-member name p [] found = absurd (ground arith)
process_of-member name p ((key, q) ∷ rest) found =
    ground (arith, same_sym key name, process_of-member name p rest)

pub validate-parts :
    (parse : ParseDuration) (c : Config) (name : Text) (p : Process)
    → validate parse c ≡ ok tt
    → process_of c.processes name ≡ some p
    → (validate_defaults parse c.defaults ≡ ok tt) × (validate_process parse name p ≡ ok tt)
unfolding validate process_names
validate-parts parse c name p h found =
    let parts : (validate_defaults parse c.defaults ≡ ok tt)
        × (validate_named parse c (process_names c) ≡ ok tt) =
      ground arith in
    (
      parts.0,
      validate_named-process parse c name p (process_names c) found parts.1
          (member-sort name (names_of c.processes) ∙ process_of-member name p c.processes found),
    )
