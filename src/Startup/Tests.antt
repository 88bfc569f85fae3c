-- ===== src/Startup/Tests.antt =====
-- Runs of the command line.
use api_gateway.Prelude.{refl, ◌≡◌, bytes, ◌∷◌, [], none, some}
use api_gateway.Prelude.Int.{pos}
use api_gateway.Core.Config.{initial_config}
use api_gateway.Logger.{info, warn}
use api_gateway.Startup.{Settings, literal, destroyed, read_arguments, override_all}

abbrev plain : Settings
plain = record { config_path = literal; log_level = info }

level_read :
    read_arguments (bytes "--log-level=WARNING" ∷ bytes "--port=1" ∷ []) plain
    ≡ record plain { log_level = warn }
unfolding read_arguments
level_read = refl

-- The path that `--config=` gives is gone when the file is opened.
path_destroyed :
    read_arguments (bytes "--config=my.json" ∷ []) plain ≡ record plain { config_path = destroyed }
unfolding read_arguments
path_destroyed = refl

-- The last argument counts, and one that is no number ends the program.
last_port :
    override_all (bytes "--port=81" ∷ bytes "--port=82x" ∷ []) initial_config
    ≡ some (record initial_config { listen_port = pos 82 })
unfolding override_all
last_port = refl

no_number : override_all (bytes "--threads=many" ∷ []) initial_config ≡ none
unfolding override_all
no_number = refl
