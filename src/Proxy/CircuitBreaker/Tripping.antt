-- ===== src/Proxy/CircuitBreaker/Tripping.antt =====
-- The invariant of the circuit breaker, and when it opens.
use api_gateway.Prelude.{
  ℕ, ◌+◌, ◌*◌, ◌≤◌, ◌<◌, ◌≡◌, ◌≢◌, ◌⊎◌, refl, ◌∙◌, List, [], ◌∷◌, ◌++◌, map, ltb, leb, length,
  length-append, if◌then◌else◌, arith,
}
use mathlib.Core.List.{map-append}
use api_gateway.Proxy.CircuitBreaker.{
  closed, opened, half_open, CircuitBreaker, circuit_breaker, allow_request, on_success, on_failure,
  reset, Call, request, success, failure, recover, step, run,
}

pub record IsValid (c : CircuitBreaker) : Type 0 where
  pub below : c.state ≡ closed → c.failure_count < c.failure_threshold
  pub consecutive : c.state ≡ closed → c.failure_count ≡ c.consecutive_failures
  pub probes : c.half_open_requests ≤ c.half_open_max_requests
  pub pending : (c.half_open_successes ≡ 0) ⊎ (c.half_open_successes < c.half_open_requests)
  pub idle : c.state ≢ half_open → (c.half_open_requests ≡ 0) × (c.half_open_successes ≡ 0)

pub circuit_breaker-IsValid :
    (threshold timeout probes : ℕ)
    → 0 < threshold
    → IsValid (circuit_breaker threshold timeout probes)
unfolding circuit_breaker
circuit_breaker-IsValid threshold timeout probes h = ground arith

pub step-IsValid :
    (call : Call) (c : CircuitBreaker)
    → 0 < c.failure_threshold
    → IsValid c
    → IsValid (step call c) × ((step call c).failure_threshold ≡ c.failure_threshold)
unfolding step allow_request on_success on_failure reset
step-IsValid (request now) c h v = ground arith
step-IsValid success c h v = ground arith
step-IsValid (failure now) c h v = ground arith
step-IsValid recover c h v = ground arith

run-IsValid_from :
    (calls : List Call) (c : CircuitBreaker)
    → 0 < c.failure_threshold
    → IsValid c
    → IsValid (run calls c)
unfolding run
run-IsValid_from [] c h v = v
run-IsValid_from (call ∷ calls) c h v =
    let (v', same) = step-IsValid call c h v in
    run-IsValid_from calls (step call c) (omega arith) v'

-- After any sequence of calls on a new breaker with a positive threshold: while it is closed its
-- failure count is below the threshold and equals the consecutive failures, the number of probes
-- on record, which leaves out the first one of a half-open period, is at most the limit, fewer
-- have succeeded than are on record unless none has, and outside such a period none is on record.
pub run-IsValid :
    (threshold timeout probes : ℕ) (calls : List Call)
    → 0 < threshold
    → IsValid (run calls (circuit_breaker threshold timeout probes))
unfolding circuit_breaker
run-IsValid threshold timeout probes calls h =
    run-IsValid_from calls _ h (circuit_breaker-IsValid threshold timeout probes h)

failures_opened :
    (ts : List ℕ) (c : CircuitBreaker) → c.state ≡ opened → (run (map failure ts) c).state ≡ opened
unfolding run step on_failure
failures_opened [] c h = h
failures_opened (t ∷ ts) c h = failures_opened ts (step (failure t) c) (ground arith)

-- A closed breaker whose count is below the threshold stays closed under a run of failures
-- exactly as long as the count and the run together stay below the threshold, and is open from
-- there on.
pub failures-state :
    (ts : List ℕ) (c : CircuitBreaker)
    → c.state ≡ closed
    → c.failure_count < c.failure_threshold
    → (run (map failure ts) c).state
      ≡ (if ltb (c.failure_count + length ts) c.failure_threshold then closed else opened)
unfolding run step on_failure
failures-state [] c h k = ground arith
failures-state (t ∷ ts) c h k =
    ground (arith, failures_opened ts (step (failure t) c), failures-state ts (step (failure t) c))

run-append : (xs ys : List Call) (c : CircuitBreaker) → run (xs ++ ys) c ≡ run ys (run xs c)
unfolding run
run-append [] ys c = refl
run-append (x ∷ xs) ys c = run-append xs ys (step x c)

failures_timeout :
    (ts : List ℕ) (c : CircuitBreaker)
    → (run (map failure ts) c).reset_timeout_ms ≡ c.reset_timeout_ms
unfolding run step on_failure
failures_timeout [] c = refl
failures_timeout (t ∷ ts) c = failures_timeout ts (step (failure t) c) ∙ ground arith

failure_last :
    (t : ℕ) (c : CircuitBreaker)
    → (step (failure t) c).state ≡ opened
    → (step (failure t) c).opened_at ≡ t
unfolding step on_failure
failure_last t c h = ground arith

failures_last :
    (ts : List ℕ) (t : ℕ) (c : CircuitBreaker)
    → (run (map failure (ts ++ t ∷ [])) c).state ≡ opened
    → (run (map failure (ts ++ t ∷ [])) c).opened_at ≡ t
unfolding run
failures_last ts t c =
    rw (map-append failure ts (t ∷ []), run-append (map failure ts) (failure t ∷ []) c)
      (failure_last t (run (map failure ts) c))

-- Once a run of failures on a closed breaker has reached the threshold, a request is let through
-- exactly from the last failure's time plus the timeout on.
pub failures-allow_request :
    (ts : List ℕ) (t now : ℕ) (c : CircuitBreaker)
    → c.state ≡ closed
    → c.failure_count < c.failure_threshold
    → c.failure_threshold ≤ c.failure_count + length ts + 1
    → (allow_request now (run (map failure (ts ++ t ∷ [])) c)).1
      ≡ leb (t + c.reset_timeout_ms * 1_000_000) now
unfolding allow_request
failures-allow_request ts t now c h k reach = ground (
  arith,
  failures-state (ts ++ t ∷ []) c h k,
  length-append ts (t ∷ []),
  failures_last ts t c,
  failures_timeout (ts ++ t ∷ []) c,
)
