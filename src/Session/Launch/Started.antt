-- ===== src/Session/Launch/Started.antt =====
-- What a session that is launched starts from.
use process_deck.Base.{◌≡◌, arith}
use process_deck.Base.Result.{ok}
use process_deck.Base.Text.{Text}
use process_deck.Graph.{validate_graph}
use process_deck.Config.{Config, dependency_map}
use process_deck.Config.Validate.{ParseDuration, validate}
use process_deck.Session.Launch.{Host, load_valid}

pub load_valid-parts :
    {Client : Type 0} (parse : ParseDuration) (host : Host Client) (config_path : Text)
    (cfg : Config)
    → load_valid parse host config_path ≡ ok cfg
    → (host.load config_path ≡ ok cfg)
      × (validate parse cfg ≡ ok tt)
      × (validate_graph (dependency_map cfg) ≡ ok tt)
unfolding load_valid
load_valid-parts parse host config_path cfg h = ground arith
