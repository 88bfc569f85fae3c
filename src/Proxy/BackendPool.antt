-- ===== src/Proxy/BackendPool.antt =====
-- The pool of idle connections: src/proxy/backend_pool.cpp. A connection has an identity, which
-- stands for the shared pointer; what the system answers to `is_alive` is a function of it. Each
-- critical section is one function.
pub mod Lending
pub mod Sharing
pub mod Counting
mod Tests
use api_gateway.Prelude.{
  ℕ, zero, suc, ◌+◌, ◌-◌, Bool, true, false, Option, none, some, List, [], ◌∷◌, ◌++◌, Bytes, length,
  ltb, leb, if◌then◌else◌,
}
use api_gateway.Prelude.Map.{bytes_key, lookup, insert}
use api_gateway.Core.Config.{Backend}
use api_gateway.Proxy.LoadBalancer.{make_key}
use api_gateway.Proxy.BackendConnection.{
  BackendConnection, backend_connection, Dial, Peek, connect, is_alive, touch,
}

pub record Pooled : Type 0 where
  pub ident : ℕ
  pub conn : BackendConnection

pub record PoolEntry : Type 0 where
  pub idle : List Pooled
  pub active_count : ℕ

pub record BackendPool : Type 0 where
  pub pools : List (Bytes × PoolEntry)
  pub max_idle_per_host : ℕ
  pub idle_timeout_sec : ℕ

abbrev pub backend_pool : ℕ → ℕ → BackendPool
backend_pool max_idle timeout = record {
  pools = [];
  max_idle_per_host = max_idle;
  idle_timeout_sec = timeout;
}

-- What the system answers about a connection.
abbrev pub Look : Type 0
Look = ℕ → Bool × Peek

unfoldable pub alive : Look → Pooled → Bool
unfolding is_alive
alive look c = is_alive (look c.ident).0 (look c.ident).1 c.conn

abbrev pub no_entry : PoolEntry
no_entry = record { idle = []; active_count = 0 }

unfoldable pub entry_or_new : Option PoolEntry → PoolEntry
entry_or_new none = no_entry
entry_or_new (some e) = e

-- `pools_[key]`
unfoldable pub entry_of : Bytes → BackendPool → PoolEntry
unfolding entry_or_new
entry_of key pool = entry_or_new (lookup key pool.pools)

unfoldable pub store : Bytes → PoolEntry → BackendPool → BackendPool
store key e pool = record pool { pools = insert key e pool.pools }

-- Pops until a healthy connection comes; the others are dropped.
unfoldable pub first_alive : Look → ℕ → List Pooled → List Pooled × Option Pooled
unfolding alive touch
first_alive look now [] = ([], none)
first_alive look now (c ∷ cs) = elim (alive look c) [
  | true ↦ (cs, some (record c { conn = touch now c.conn }))
  | false ↦ first_alive look now cs
]

-- The first critical section of `acquire`.
unfoldable pub reserve_idle : Look → ℕ → Bytes → BackendPool → BackendPool × Option Pooled
unfolding first_alive store entry_of
reserve_idle look now key pool =
    let e = entry_of key pool in
    let (rest, found) = first_alive look now e.idle in
    (store key (record { idle = rest; active_count = e.active_count + 1 }) pool, found)

unfoldable pub one_less : ℕ → ℕ
one_less n = if ltb 0 n then n - 1 else n

-- One active connection less, if the key is there: the last section of `acquire`, and `evict`.
unfoldable pub give_back : Bytes → BackendPool → BackendPool
unfolding one_less store
give_back key pool = elim (lookup key pool.pools) [
  | none ↦ pool
  | some e ↦ store key (record e { active_count = one_less e.active_count }) pool
]

-- A new connection, when the pool has none; it is the given one.
unfoldable pub acquire_new : ℕ → ℕ → Dial → Backend → BackendPool → BackendPool × Option Pooled
unfolding connect give_back
acquire_new ident now dial backend pool =
    let (c, ok) = connect now dial (backend_connection backend) in
    if ok
    then (pool, some (record { ident = ident; conn = c }))
    else (give_back (make_key backend) pool, none)

unfoldable pub acquire : Look → ℕ → ℕ → Dial → Backend → BackendPool → BackendPool × Option Pooled
unfolding reserve_idle acquire_new
acquire look ident now dial backend pool =
    let (pool', found) = reserve_idle look now (make_key backend) pool in
    elim found [ some c ↦ (pool', some c) | none ↦ acquire_new ident now dial backend pool' ]

unfoldable pub evict : Backend → Option Pooled → BackendPool → BackendPool
unfolding give_back
evict backend none pool = pool
evict backend (some c) pool = give_back (make_key backend) pool

-- `release` of a healthy connection.
unfoldable pub keep : Bytes → Pooled → BackendPool → BackendPool
unfolding entry_of store one_less
keep key c pool =
    let e = entry_of key pool in
    store key
      (record {
        idle = if ltb (length e.idle) pool.max_idle_per_host then e.idle ++ c ∷ [] else e.idle;
        active_count = one_less e.active_count;
      })
      pool

unfoldable pub release : Look → Backend → Option Pooled → BackendPool → BackendPool
unfolding evict keep alive
release look backend none pool = evict backend none pool
release look backend (some c) pool =
    if alive look c then keep (make_key backend) c pool else evict backend (some c) pool

unfoldable pub is_expired : ℕ → ℕ → Pooled → Bool
is_expired now timeout c = leb (c.conn.last_activity + timeout) now

-- The queue turned round once, without the expired connections.
unfoldable pub turn : ℕ → ℕ → ℕ → List Pooled → List Pooled
unfolding is_expired
turn now timeout zero idle = idle
turn now timeout (suc n) [] = []
turn now timeout (suc n) (c ∷ cs) =
    turn now timeout n (if is_expired now timeout c then cs else cs ++ c ∷ [])

unfoldable pub cleaned : ℕ → ℕ → List (Bytes × PoolEntry) → List (Bytes × PoolEntry)
unfolding turn
cleaned now timeout [] = []
cleaned now timeout ((key, e) ∷ m) =
    (key, record e { idle = turn now timeout (length e.idle) e.idle }) ∷ cleaned now timeout m

unfoldable pub cleanup_idle : ℕ → BackendPool → BackendPool
unfolding cleaned
cleanup_idle now pool = record pool { pools = cleaned now pool.idle_timeout_sec pool.pools }

-- `warm_up` for one backend: each of its attempts with what the system answers.
unfoldable pub warm_up_backend : Look → ℕ → Backend → List (ℕ × Dial) → BackendPool → BackendPool
unfolding connect release
warm_up_backend look now backend [] pool = pool
warm_up_backend look now backend ((ident, dial) ∷ dials) pool =
    let (c, ok) = connect now dial (backend_connection backend) in
    warm_up_backend look now backend dials
      (if ok then release look backend (some (record { ident = ident; conn = c })) pool else pool)

unfoldable pub warm_up : Look → ℕ → List (Backend × List (ℕ × Dial)) → BackendPool → BackendPool
unfolding warm_up_backend
warm_up look now [] pool = pool
warm_up look now ((backend, dials) ∷ rest) pool =
    warm_up look now rest (warm_up_backend look now backend dials pool)
