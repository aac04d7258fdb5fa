-- ===== src/Runner/Tests.antt =====
-- Environments, stops and captured output at concrete inputs.
use process_deck.Base.{◌≡◌, refl, false, List, [], ◌∷◌, ◌++◌, none, some, if◌then◌else◌, ltb, arith}
use process_deck.Base.Int.{pos}
use process_deck.Base.Result.{ok, err}
use process_deck.Base.Text.{Text, codes, same, same_iff, AllIn, member}
use process_deck.Base.GoStrings.{contains_char}
use process_deck.Runner.{Spec, term, kill}
use process_deck.Runner.Command.{Host, build_env}
use process_deck.Runner.Command.Precedence.{
  value_of, or_else, explicit, keys, FilesRead, build_env-value_of,
}
use process_deck.Runner.Group.{Os, done, gone, probe, send, Runner, stop}
use process_deck.Runner.Group.Ended.{ShowsEnd, stop-ShowsEnd}
use process_deck.Runner.Group.Escalation.{Sends, stop-Sends}
use process_deck.Runner.Logs.{Slice, eof, max_log_line_bytes, scan_lines}
use process_deck.Runner.Logs.Lines.{Returns, at_eof, whole_line, lines_from, slice}
use process_deck.Runner.Logs.Records.{Covers, scan_lines-Covers}

-- A host with one environment file.
abbrev host : Host
host = record {
  environ = codes "PATH=/bin" ∷ codes "PORT=1" ∷ [];
  unquote = λ text. err (codes "invalid syntax");
  read = λ path.
      if same path (codes "/srv/.env")
      then ok (codes "PORT=2" ∷ codes "export NAME='a b'" ∷ [], none)
      else err (codes "no such file");
  is_abs = λ path. false;
  join = λ a b. a ++ codes "/" ++ b;
}

abbrev ports : List (Text × Text)
ports = (codes "PORT", codes "3") ∷ []

abbrev built : List Text
built = codes "PATH=/bin" ∷ codes "PORT=1" ∷ codes "PORT=2" ∷ codes "NAME=a b" ∷ codes "PORT=3" ∷ []

built_run : build_env host (codes "/srv") (codes ".env" ∷ []) ports ≡ ok built
unfolding build_env
built_run = refl

ports-plain : AllIn (λ k. contains_char k b'=' ≡ false) (keys ports)
unfolding member contains_char
ports-plain k m = plain (ground (arith, same_iff k (codes "PORT")))
  where
    plain : k ≡ codes "PORT" → contains_char k b'=' ≡ false
    plain e = rw e refl

build_env-value_of_example :
    (entries : List Text) × FilesRead host (codes "/srv") (codes ".env" ∷ []) entries
    × ((key : Text)
        → value_of key built
          ≡ or_else
              (explicit ports key)
              (or_else (value_of key entries) (value_of key host.environ)))
build_env-value_of_example =
    build_env-value_of host (codes "/srv") (codes ".env" ∷ []) ports ports-plain built_run

-- A group that ignores the stop signal for longer than its timeout, and goes at KILL.
abbrev stubborn : Os
stubborn = record { answer = λ n. if ltb n 5 then done else gone; ticks = λ made timeout. 2 }

abbrev spec : Spec
spec = record {
  name = codes "web";
  cmd = codes "serve";
  exec = [];
  cwd = [];
  env_files = [];
  env = [];
  stop_signal = term;
  stop_timeout = pos 30;
  pty = false;
}

abbrev runner : Runner
runner = record { spec = spec; cmd = some 71; stopped = none; made = [] }

stubborn_run : stop stubborn runner ≡ (
  record runner {
    stopped = some none;
    made = send term ∷ probe ∷ probe ∷ probe ∷ send kill ∷ probe ∷ [];
  },
  none,
)
unfolding stop
stubborn_run = refl

stop-ShowsEnd_example :
    ShowsEnd stubborn ((stop stubborn runner).1, (stop stubborn runner).0.made)
    × (stop stubborn (stop stubborn runner).0 ≡ stop stubborn runner)
stop-ShowsEnd_example = stop-ShowsEnd stubborn stubborn runner refl refl

stop-Sends_example : Sends stubborn spec [] (stop stubborn runner).0.made
stop-Sends_example = stop-Sends stubborn runner refl refl

-- Two lines, of which the second has no end.
abbrev output : List Slice
output = slice (codes "ab\r" ++ b'\n' ∷ []) none ∷ slice (codes "c") (some eof) ∷ []

output_run : scan_lines output ≡ (codes "ab" ∷ codes "c" ∷ [], some none)
unfolding scan_lines
output_run = refl

output-Returns : Returns output (codes "ab\r" ++ b'\n' ∷ codes "c") none
unfolding contains_char
output-Returns = whole_line (codes "ab\r") refl (at_eof (codes "c") refl)

scan_lines-Covers_example :
    ((scan_lines output).1 ≡ some none)
    × Covers max_log_line_bytes
        (scan_lines output).0
        (lines_from [] (codes "ab\r" ++ b'\n' ∷ codes "c"))
scan_lines-Covers_example = scan_lines-Covers output-Returns
