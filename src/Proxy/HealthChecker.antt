-- ===== src/Proxy/HealthChecker.antt =====
-- The health checker: src/proxy/health_checker.cpp. What a probe of a backend answers is an
-- argument.
pub mod Threshold
pub mod Rounds
mod Tests
use api_gateway.Prelude.{
  ℕ, ◌+◌, Bool, true, false, not, ◌&&◌, Option, none, some, List, [], ◌∷◌, ◌++◌, Bytes, leb,
  if◌then◌else◌,
}
use api_gateway.Prelude.Map.{bytes_key, lookup, insert, erase}
use api_gateway.Core.Config.{Backend}
use api_gateway.Proxy.LoadBalancer.{make_key}
use api_gateway.Proxy.BackendConnection.{Dial, is_open, at_once, in_progress, refused}

pub record BackendHealth : Type 0 where
  pub backend : Backend
  pub healthy : Bool
  pub last_check : ℕ
  pub consecutive_failures : ℕ

abbrev pub Table : Type 0
Table = List (Bytes × BackendHealth)

-- `BackendHealth{backend, false, {}, 0}`
abbrev pub unchecked : Backend → BackendHealth
unchecked backend = record {
  backend = backend;
  healthy = false;
  last_check = 0;
  consecutive_failures = 0;
}

unfoldable pub add_backend : Backend → Table → Table
add_backend backend backends = elim (lookup (make_key backend) backends) [
  | none ↦ insert (make_key backend) (unchecked backend) backends
  | some bh ↦ backends
]

unfoldable pub remove_backend : Backend → Table → Table
remove_backend backend backends = erase (make_key backend) backends

unfoldable pub tcp_check : Dial → Bool
tcp_check d =
    if not (is_open d.fd) then false else if not d.address_ok then false else elim d.connecting [
      | at_once ↦ true
      | refused ↦ false
      | in_progress ↦ d.writable && d.without_error
    ]

-- One backend after its probe.
unfoldable pub checked : ℕ → Bool → BackendHealth → BackendHealth
checked now now_healthy bh =
    if now_healthy
    then record bh { last_check = now; consecutive_failures = 0; healthy = true }
    else record bh {
      last_check = now;
      consecutive_failures = bh.consecutive_failures + 1;
      healthy = if leb 3 (bh.consecutive_failures + 1) then false else bh.healthy;
    }

-- A change of the health is reported.
unfoldable pub changes : BackendHealth → BackendHealth → List (Backend × Bool)
changes before after =
    if before.healthy
    then (if after.healthy then [] else (after.backend, after.healthy) ∷ [])
    else (if after.healthy then (after.backend, after.healthy) ∷ [] else [])

-- The result is written back, unless the backend has been removed.
unfoldable pub write_back : BackendHealth → Table → Table
write_back bh backends = elim (lookup (make_key bh.backend) backends) [
  | none ↦ backends
  | some old ↦ insert (make_key bh.backend) bh backends
]

-- The loop over the snapshot; the reports are in order.
unfoldable pub check_each : ℕ → (Backend → Dial) → Table → Table → Table × List (Backend × Bool)
unfolding checked changes write_back tcp_check
check_each now probe [] backends = (backends, [])
check_each now probe ((key, bh) ∷ snapshot) backends =
    let after = checked now (tcp_check (probe bh.backend)) bh in
    let (rest, reports) = check_each now probe snapshot (write_back after backends) in
    (rest, changes bh after ++ reports)

unfoldable pub check_all : ℕ → (Backend → Dial) → Table → Table × List (Backend × Bool)
unfolding check_each
check_all now probe backends = check_each now probe backends backends

unfoldable pub is_healthy : Backend → Table → Bool
is_healthy backend backends = elim (lookup (make_key backend) backends) [
  | none ↦ false
  | some bh ↦ bh.healthy
]
