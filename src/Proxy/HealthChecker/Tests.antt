-- ===== src/Proxy/HealthChecker/Tests.antt =====
-- Runs of the health checker.
use api_gateway.Prelude.Map.{bytes_key}
use api_gateway.Proxy.BackendConnection.{Dial, in_progress}
use api_gateway.Prelude.{text_eq}
use api_gateway.Prelude.Decimal.{to_string}
use api_gateway.Prelude.Map.{lookup}
use api_gateway.Proxy.LoadBalancer.{make_key}
use api_gateway.Proxy.HealthChecker.Rounds.{probed, check_all-lookup}
use api_gateway.Proxy.HealthChecker.{unchecked, check_all, Table}
use mathlib.Core.Option
use api_gateway.Prelude.{ℕ, ◌≡◌, refl, true, false, ◌&&◌, ltb, List, [], ◌∷◌, bytes, Bool}
use api_gateway.Prelude.Int.{pos}
use api_gateway.Core.Config.{Backend}
use api_gateway.Proxy.HealthChecker.{unchecked}
use api_gateway.Proxy.HealthChecker.Threshold.{history, succeeded, failures, history-healthy}

abbrev backend : Backend
backend = record { host = bytes "h"; port = pos 80 }

abbrev probes : List (ℕ × Bool)
probes = (1, true) ∷ (2, false) ∷ (3, false) ∷ (4, false) ∷ []

down : (history probes (unchecked backend)).healthy ≡ false
unfolding history
down = refl

history-healthy_example :
    (history probes (unchecked backend)).healthy ≡ (succeeded probes && ltb (failures probes 0) 3)
history-healthy_example = history-healthy probes backend

abbrev other : Backend
other = record { host = bytes "g"; port = pos 81 }

abbrev table : Table
table = (make_key backend, unchecked backend) ∷ (make_key other, unchecked other) ∷ []

abbrev answering : Backend → Dial
answering b = record {
  fd = b.port;
  address_ok = true;
  connecting = in_progress;
  writable = text_eq b.host (bytes "h");
  without_error = true;
}

check_all-lookup_example :
    lookup (make_key other) (check_all 9 answering table).0
    ≡ Option.map (probed 9 answering) (lookup (make_key other) table)
unfolding lookup text_eq make_key to_string
check_all-lookup_example =
    check_all-lookup 9 answering table (make_key other) (((refl, refl), ((refl, refl), tt)))
