-- ===== src/Proxy/BackendPool/Lending.antt =====
-- Who holds a connection: the pool's queues and the callers that have acquired one.
use api_gateway.Proxy.BackendPool.{one_less}
use api_gateway.Prelude.{
  ℕ, zero, suc, ◌+◌, ◌≤◌, ◌≡◌, Option, none, some, List, [], ◌∷◌, ◌++◌, Bytes, length, ltb, ◌==◌,
  if◌then◌else◌, text_eq, Bool-cases, Option-cases, inl, inr, arith,
}
use api_gateway.Prelude.Map.{bytes_key, lookup, insert}
use api_gateway.Proxy.BackendPool.{
  Pooled, PoolEntry, BackendPool, Look, entry_or_new, entry_of, alive, first_alive, store,
  reserve_idle, give_back, keep, is_expired, turn, cleaned,
}

unfoldable pub times : ℕ → List Pooled → ℕ
times i [] = 0
times i (c ∷ cs) = (if c.ident == i then 1 else 0) + times i cs

-- How often a connection lies in the queues of the pool.
unfoldable pub idle_times : ℕ → List (Bytes × PoolEntry) → ℕ
idle_times i [] = 0
idle_times i ((key, e) ∷ m) = times i e.idle + idle_times i m

abbrev pub optional_times : ℕ → Option Pooled → ℕ
optional_times i none = 0
optional_times i (some c) = if c.ident == i then 1 else 0

times-append : (i : ℕ) (xs ys : List Pooled) → times i (xs ++ ys) ≡ times i xs + times i ys
unfolding times
times-append i [] ys = omega arith
times-append i (c ∷ cs) ys = omega (arith, times-append i cs ys)

-- Putting an entry in place of another one.
idle_times-insert :
    (i : ℕ) (key : Bytes) (e : PoolEntry) (m : List (Bytes × PoolEntry))
    → idle_times i (insert key e m) + times i (entry_or_new (lookup key m)).idle
      ≡ idle_times i m + times i e.idle
unfolding idle_times insert lookup entry_or_new times
idle_times-insert i key e [] = omega arith
idle_times-insert i key e ((k, f) ∷ m) = elim (Bool-cases (text_eq k key)) [
  | inl same ↦ ground arith
  | inr other ↦ ground (arith, idle_times-insert i key e m)
]

first_alive-times :
    (i : ℕ) (look : Look) (now : ℕ) (cs : List Pooled)
    → times i (first_alive look now cs).0 + optional_times i (first_alive look now cs).1
      ≤ times i cs
unfolding times first_alive
first_alive-times i look now [] = omega arith
first_alive-times i look now (c ∷ cs) = elim (Bool-cases (alive look c)) [
  | inl good ↦ ground arith
  | inr bad ↦ ground (arith, first_alive-times i look now cs)
]

pub reserve_idle-times :
    (i : ℕ) (look : Look) (now : ℕ) (key : Bytes) (pool : BackendPool)
    → let (pool', found) = reserve_idle look now key pool in
      idle_times i pool'.pools + optional_times i found ≤ idle_times i pool.pools
unfolding reserve_idle store entry_of
reserve_idle-times i look now key pool =
    let e = entry_or_new (lookup key pool.pools) in
    let left : PoolEntry = record {
      idle = (first_alive look now e.idle).0;
      active_count = e.active_count + 1;
    } in
    omega (arith, first_alive-times i look now e.idle, idle_times-insert i key left pool.pools)

pub give_back-times :
    (i : ℕ) (key : Bytes) (pool : BackendPool)
    → idle_times i (give_back key pool).pools ≡ idle_times i pool.pools
unfolding give_back store entry_or_new
give_back-times i key pool = elim (Option-cases (lookup key pool.pools)) [
  | inl none_there ↦ ground arith
  | inr (e, there) ↦
      let e' : PoolEntry = record { idle = e.idle; active_count = one_less e.active_count } in
      ground (arith, idle_times-insert i key e' pool.pools)
]

pub keep-times :
    (i : ℕ) (key : Bytes) (c : Pooled) (pool : BackendPool)
    → idle_times i (keep key c pool).pools ≤ idle_times i pool.pools + times i (c ∷ [])
unfolding keep store entry_of times
keep-times i key c pool =
    let e = entry_or_new (lookup key pool.pools) in
    elim (Bool-cases (ltb (length e.idle) pool.max_idle_per_host)) [
      | inl room ↦
          let e' : PoolEntry = record {
            idle = e.idle ++ c ∷ [];
            active_count = one_less e.active_count;
          } in
          ground (arith, idle_times-insert i key e' pool.pools, times-append i e.idle (c ∷ []))
      | inr full ↦
          let e' : PoolEntry = record { idle = e.idle; active_count = one_less e.active_count } in
          ground (arith, idle_times-insert i key e' pool.pools)
    ]

turn-times : (i now timeout n : ℕ) (cs : List Pooled) → times i (turn now timeout n cs) ≤ times i cs
unfolding turn times
turn-times i now timeout zero cs = omega arith
turn-times i now timeout (suc n) [] = omega arith
turn-times i now timeout (suc n) (c ∷ cs) = elim (Bool-cases (is_expired now timeout c)) [
  | inl old ↦ ground (arith, turn-times i now timeout n cs)
  | inr fresh ↦
      ground (arith, turn-times i now timeout n (cs ++ c ∷ []), times-append i cs (c ∷ []))
]

pub cleaned-times :
    (i now timeout : ℕ) (m : List (Bytes × PoolEntry))
    → idle_times i (cleaned now timeout m) ≤ idle_times i m
unfolding cleaned idle_times
cleaned-times i now timeout [] = omega arith
cleaned-times i now timeout ((key, e) ∷ m) =
    omega (arith, turn-times i now timeout (length e.idle) e.idle, cleaned-times i now timeout m)
