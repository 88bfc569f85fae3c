-- ===== src/Proxy/CircuitBreaker.antt =====
-- The circuit breaker, src/proxy/circuit_breaker.cpp and include/gateway/proxy/circuit_breaker.h.
-- `steady_clock::now()` is an argument, in nanoseconds; each call holds the mutex, so a history
-- is a sequence of calls. The counters do not reach the overflow of `int`, and the three
-- configured numbers are not negative.
pub mod Tripping
pub mod Probing
mod Tests
use api_gateway.Prelude.{ℕ, ◌+◌, ◌*◌, Bool, true, false, List, [], ◌∷◌, leb, ltb, if◌then◌else◌}

pub data State : Type 0 where
  closed opened half_open : State

pub record CircuitBreaker : Type 0 where
  pub failure_threshold : ℕ
  pub reset_timeout_ms : ℕ
  pub half_open_max_requests : ℕ
  pub state : State
  pub failure_count : ℕ
  pub consecutive_failures : ℕ
  pub half_open_successes : ℕ
  pub half_open_requests : ℕ
  pub opened_at : ℕ

unfoldable pub circuit_breaker : ℕ → ℕ → ℕ → CircuitBreaker
circuit_breaker threshold timeout probes = record {
  failure_threshold = threshold;
  reset_timeout_ms = timeout;
  half_open_max_requests = probes;
  state = closed;
  failure_count = 0;
  consecutive_failures = 0;
  half_open_successes = 0;
  half_open_requests = 0;
  opened_at = 0;
}

pub transition_to_open : ℕ → CircuitBreaker → CircuitBreaker
transition_to_open now c = record c {
  state = opened;
  opened_at = now;
  half_open_successes = 0;
  half_open_requests = 0;
}

pub try_transition_to_half_open : CircuitBreaker → CircuitBreaker
try_transition_to_half_open c = record c {
  state = half_open;
  half_open_successes = 0;
  half_open_requests = 0;
}

-- `now - opened_at_ >= milliseconds(reset_timeout_ms_)`, in nanoseconds.
abbrev pub deadline : CircuitBreaker → ℕ
deadline c = c.opened_at + c.reset_timeout_ms * 1_000_000

unfoldable pub allow_request : ℕ → CircuitBreaker → CircuitBreaker × Bool
unfolding try_transition_to_half_open
allow_request now c = elim c.state [
  | closed ↦ (c, true)
  | opened ↦ if leb (deadline c) now then (try_transition_to_half_open c, true) else (c, false)
  | half_open ↦
      if ltb c.half_open_requests c.half_open_max_requests
      then (record c { half_open_requests = c.half_open_requests + 1 }, true)
      else (c, false)
]

probe_succeeded : CircuitBreaker → CircuitBreaker
probe_succeeded c =
    if leb c.half_open_requests c.half_open_successes
    then record c {
      state = closed;
      failure_count = 0;
      half_open_successes = 0;
      half_open_requests = 0;
    }
    else c

unfoldable pub on_success : CircuitBreaker → CircuitBreaker
unfolding probe_succeeded
on_success c =
    let c' = record c { consecutive_failures = 0 } in
    elim c.state [
      | closed ↦ record c' { failure_count = 0 }
      | half_open ↦ probe_succeeded (record c' { half_open_successes = c'.half_open_successes + 1 })
      | opened ↦ c'
    ]

unfoldable pub on_failure : ℕ → CircuitBreaker → CircuitBreaker
unfolding transition_to_open
on_failure now c =
    let c' = record c {
      consecutive_failures = c.consecutive_failures + 1;
      failure_count = c.failure_count + 1;
    } in
    elim c.state [
      | closed ↦ if leb c'.failure_threshold c'.failure_count then transition_to_open now c' else c'
      | half_open ↦ transition_to_open now c'
      | opened ↦ record c' { opened_at = now }
    ]

unfoldable pub reset : CircuitBreaker → CircuitBreaker
reset c = record c {
  state = closed;
  failure_count = 0;
  consecutive_failures = 0;
  half_open_successes = 0;
  half_open_requests = 0;
}

-- The public calls, in the order in which they take the mutex.
pub data Call : Type 0 where
  request : ℕ → Call
  success : Call
  failure : ℕ → Call
  recover : Call

pub step : Call → CircuitBreaker → CircuitBreaker
step (request now) c = (allow_request now c).0
step success c = on_success c
step (failure now) c = on_failure now c
step recover c = reset c

unfoldable pub run : List Call → CircuitBreaker → CircuitBreaker
unfolding step
run [] c = c
run (call ∷ calls) c = run calls (step call c)
