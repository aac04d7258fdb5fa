-- ===== src/Config/Tests.antt =====
-- A directory with a configuration.
use process_deck.Base.{◌≡◌, refl, ◌++◌, if◌then◌else◌}
use process_deck.Base.Result.{ok}
use process_deck.Base.Text.{Text, codes, same}
use process_deck.Config.Load.{
  Stat, regular, directory, absent, default_config_filenames, discover_path, Found,
  discover_path-Found,
}

abbrev join : Text → Text → Text
join dir name = dir ++ codes "/" ++ name

-- The first name is a directory and the third a file.
abbrev stat : Text → Stat
stat path =
    if same path (codes "./process-deck.yaml")
    then directory
    else if same path (codes "./procdeck.yaml")
    then regular
    else absent

discover_run : discover_path join stat (codes ".") ≡ ok (codes "./procdeck.yaml")
unfolding discover_path same
discover_run = refl

discover_path-Found_example :
    Found join stat (codes ".") default_config_filenames (discover_path join stat (codes "."))
discover_path-Found_example = discover_path-Found join stat (codes ".")
