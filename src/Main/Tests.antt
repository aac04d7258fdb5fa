-- ===== src/Main/Tests.antt =====
-- A client without a terminal interface at work, and the lines of a dry run.
use process_deck.Base.{arith, ℕ, ◌≡◌, refl, true, List, [], ◌∷◌, none, some}
use process_deck.Base.Int.{ℤ}
use process_deck.Base.Result.{ok}
use process_deck.Base.Text.{Text, codes, same}
use process_deck.Base.GoStrings.{trim_space}
use process_deck.Config.{dependency_map, project_name}
use process_deck.Supervisor.{EventKind, log_line, process_skipped}
use process_deck.Supervisor.Tests.Deck.{shop}
use process_deck.Session.{Received}
use process_deck.Main.{
  Input, stop, live, closed, Output, stdout, stderr, after_history, headless_loop, run_headless,
  print_dry_run,
}
use process_deck.Main.Places.{places, unplaced, Increases, above, AtMost}
use process_deck.Main.Headless.{received, headless_loop_complete}

-- An event of the database.
abbrev about_db : EventKind → ℕ → Received
about_db kind cursor = record {
  event = record {
    kind = kind;
    process = codes "db";
    stream = codes "stdout";
    line = codes "x";
    log_cursor = cursor;
    log_retained = 2;
    log_state_valid = true;
    state = none;
    pid = 71;
    restarts = 0;
    exit_code = none;
    error = none;
    time = 5;
  };
  error = none;
}

abbrev past : List Received
past = about_db log_line 3 ∷ about_db log_line 4 ∷ []

-- The line with the cursor 4 comes again.
abbrev inputs : List Input
inputs =
    live (about_db log_line 4)
    ∷ live (about_db process_skipped 0)
    ∷ stop none
    ∷ live (about_db log_line 5)
    ∷ closed none
    ∷ []

abbrev show : ℤ → Text
show n = codes "1"

abbrev line_of_db : Output
line_of_db = stdout (codes "[db stdout] x")

printed_run :
    run_headless show past inputs
    ≡ (line_of_db ∷ line_of_db ∷ stderr (codes "[db] skipped") ∷ line_of_db ∷ [], some none)
unfolding run_headless
printed_run = refl

arrives : Increases 3 (places (codes "db") (received true inputs))
unfolding received same
arrives = omega arith

headless_loop_complete_example :
    let cursors = after_history (λ n. 0) past in
    let newest = cursors (codes "db") in
    let printed = (headless_loop true cursors inputs).0 in
    let arrived = received true inputs in
    AtMost newest (places (codes "db") past)
    × Increases newest (places (codes "db") printed)
    × (places (codes "db") printed ≡ above newest (places (codes "db") arrived))
    × (unplaced printed ≡ unplaced arrived)
headless_loop_complete_example = headless_loop_complete (codes "db") past inputs 3 arrives

dry_run :
    print_dry_run
      (λ n. codes "1")
      (λ path. path)
      none
      (codes "deck.yaml")
      shop
      (dependency_map shop)
    ≡ ok (
        codes "Project: shop"
        ∷ codes "Config: deck.yaml"
        ∷ []
        ∷ codes "Processes:"
        ∷ codes "- db"
        ∷ codes "- web depends_on [db]"
        ∷ []
        ∷ codes "Startup layers:"
        ∷ codes "1. db"
        ∷ codes "1. web"
        ∷ []
        ∷ codes "OK"
        ∷ [])
unfolding print_dry_run dependency_map project_name trim_space
dry_run = refl
