-- ===== src/Logger/Tests.antt =====
-- Runs of the log, and its theorem on a path.
use api_gateway.Prelude.{refl, [], ◌≡◌, bytes, none}
use api_gateway.Logger.{info, debug, Logger, log}

abbrev quiet : Logger
quiet = record { level = info; async_logger = none; stderr_text = [] }

not_logged : log (bytes "now") debug (bytes "src/main.cpp") 7 (bytes "hi") quiet ≡ quiet
unfolding log
not_logged = refl

logged :
    (log (bytes "now") info (bytes "src/main.cpp") 7 (bytes "hi") quiet).stderr_text
    ≡ bytes "now [INFO ] main.cpp:7 hi\n"
unfolding log
logged = refl
