-- ===== src/Proxy/CircuitBreaker/Probing.antt =====
-- What an open breaker lets through, and when it closes again.
use api_gateway.Prelude.{
  ℕ, zero, suc, ◌+◌, ◌-◌, ◌≤◌, ◌<◌, min, max, ◌≡◌, refl, List, [], ◌∷◌, map, length, replicate, ltb,
  if◌then◌else◌, All, arith,
}
use api_gateway.Proxy.CircuitBreaker.{
  closed, opened, half_open, CircuitBreaker, deadline, allow_request, on_success, request, success,
  step, run,
}

-- How many of a sequence of requests are let through.
abbrev pub admissions : List ℕ → CircuitBreaker → ℕ
admissions [] c = 0
admissions (t ∷ ts) c =
    (if (allow_request t c).1 then 1 else 0) + admissions ts (allow_request t c).0

-- Before its deadline an open breaker refuses every request and stays as it is.
pub requests_before :
    (ts : List ℕ) (c : CircuitBreaker)
    → c.state ≡ opened
    → All (λ t. t < deadline c) ts
    → (admissions ts c ≡ 0) × (run (map request ts) c ≡ c)
unfolding allow_request run step
requests_before [] c h early = (refl, refl)
requests_before (t ∷ ts) c h early = ground (arith, requests_before ts c h early.1)

half_open_budget :
    (ts : List ℕ) (c : CircuitBreaker)
    → c.state ≡ half_open
    → admissions ts c ≡ min (length ts) (c.half_open_max_requests - c.half_open_requests)
unfolding allow_request
half_open_budget [] c h = omega arith
half_open_budget (t ∷ ts) c h = ground (arith, half_open_budget ts (allow_request t c).0)

-- From its deadline on an open breaker lets through the configured number of probes and one more.
pub requests_after :
    (ts : List ℕ) (c : CircuitBreaker)
    → c.state ≡ opened
    → All (λ t. deadline c ≤ t) ts
    → admissions ts c ≡ min (length ts) (c.half_open_max_requests + 1)
unfolding allow_request
requests_after [] c h late = omega arith
requests_after (t ∷ ts) c h late = ground (arith, half_open_budget ts (allow_request t c).0)

successes_closed :
    (k : ℕ) (c : CircuitBreaker) → c.state ≡ closed → (run (replicate k success) c).state ≡ closed
unfolding run step on_success
successes_closed zero c h = h
successes_closed (suc k) c h = successes_closed k (step success c) (ground arith)

-- A half-open breaker closes with the success that brings the successes up to the probes counted,
-- and no sooner than one success.
successes-state :
    (k : ℕ) (c : CircuitBreaker)
    → c.state ≡ half_open
    → (run (replicate k success) c).state
      ≡ (if ltb k (max 1 (c.half_open_requests - c.half_open_successes)) then half_open else closed)
unfolding run step on_success
successes-state zero c h = ground arith
successes-state (suc k) c h =
    ground (arith, successes_closed k (step success c), successes-state k (step success c))
