-- ===== src/Proxy/CircuitBreaker/Tests.antt =====
-- Runs of the circuit breaker, and its theorems at concrete inputs.
use api_gateway.Prelude.{◌≡◌, refl, true, [], ◌∷◌, ◌++◌, map, replicate, arith}
use api_gateway.Proxy.CircuitBreaker.{
  closed, opened, CircuitBreaker, circuit_breaker, allow_request, request, success, failure, run,
  on_failure,
}
use api_gateway.Proxy.CircuitBreaker.Tripping.{IsValid, run-IsValid, failures-allow_request}
use api_gateway.Proxy.CircuitBreaker.Probing.{admissions, requests_after}

-- As the gateway makes them, with a timeout of 6 seconds.
abbrev fresh : CircuitBreaker
fresh = record {
  failure_threshold = 5;
  reset_timeout_ms = 6000;
  half_open_max_requests = 3;
  state = closed;
  failure_count = 0;
  consecutive_failures = 0;
  half_open_successes = 0;
  half_open_requests = 0;
  opened_at = 0;
}

abbrev tripped : CircuitBreaker
tripped = record fresh { state = opened; opened_at = 1000 }

trips_at_five :
    (run (map failure (1 ∷ 2 ∷ 3 ∷ 4 ∷ 5 ∷ [])) (circuit_breaker 5 6000 3)).state ≡ opened
unfolding run on_failure circuit_breaker
trips_at_five = refl

four_probes : admissions (replicate 9 6_000_001_000) tripped ≡ 4
unfolding allow_request
four_probes = refl

run-IsValid_example :
    IsValid (run (failure 1 ∷ success ∷ request 7 ∷ []) (circuit_breaker 5 6000 3))
run-IsValid_example = run-IsValid 5 6000 3 (failure 1 ∷ success ∷ request 7 ∷ []) (omega arith)

failures-allow_request_example :
    (allow_request 6_000_000_009 (run (map failure ((1 ∷ 2 ∷ 3 ∷ 4 ∷ []) ++ 9 ∷ [])) fresh)).1
    ≡ true
failures-allow_request_example =
    failures-allow_request (1 ∷ 2 ∷ 3 ∷ 4 ∷ []) 9 6_000_000_009 fresh refl (omega arith)
      (omega arith)

requests_after_example : admissions (replicate 6 6_000_001_000) tripped ≡ 4
requests_after_example = requests_after (replicate 6 6_000_001_000) tripped refl (omega arith)
