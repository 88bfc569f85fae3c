-- ===== src/Proxy/BackendPool/Counting.antt =====
-- The counts of active connections under each section of the pool.
use api_gateway.Proxy.BackendConnection.{connect, backend_connection}
use api_gateway.Proxy.BackendPool.{acquire, reserve_idle}
use api_gateway.Proxy.BackendConnection.{Dial}
use api_gateway.Prelude.{true, false, none, some}
use api_gateway.Prelude.{Option, ap, ◌∙◌}
use api_gateway.Prelude.{
  ℕ, ◌+◌, ◌≡◌, refl, Bool, true, false, none, some, Bytes, if◌then◌else◌, text_eq, text_eq_iff,
  Bool-cases, Option-cases, inl, inr, arith,
}
use api_gateway.Prelude.Map.{bytes_key, lookup, lookup-insert}
use api_gateway.Core.Config.{Backend}
use api_gateway.Proxy.LoadBalancer.{make_key}
use api_gateway.Proxy.BackendPool.{
  acquire, acquire_new, BackendPool, Pooled, PoolEntry, Look, entry_or_new, entry_of, store,
  one_less, reserve_idle, give_back, evict, keep, release, alive,
}

abbrev pub active : Bytes → BackendPool → ℕ
active key pool = (entry_of key pool).active_count

entry_of-store :
    (key j : Bytes) (e : PoolEntry) (pool : BackendPool)
    → entry_of j (store key e pool) ≡ (if text_eq key j then e else entry_of j pool)
unfolding entry_of store entry_or_new
entry_of-store key j e pool = elim (Bool-cases (text_eq key j)) [
  | inl same ↦ rw (lookup-insert key j e pool.pools, same) refl
  | inr other ↦ rw (lookup-insert key j e pool.pools, other) refl
]

-- The count of a key, with the count of one key changed.
abbrev pub changed : Bytes → ℕ → Bytes → BackendPool → ℕ
changed key n j pool = if text_eq key j then n else active j pool

if-active :
    (b : Bool) (e f : PoolEntry)
    → (if b then e else f).active_count ≡ (if b then e.active_count else f.active_count)
if-active true e f = refl
if-active false e f = refl

store-active :
    (key j : Bytes) (e : PoolEntry) (pool : BackendPool)
    → active j (store key e pool) ≡ changed key e.active_count j pool
store-active key j e pool =
    ap (λ x. x.active_count) (entry_of-store key j e pool)
    ∙ if-active (text_eq key j) e (entry_of j pool)

reserve_idle-active :
    (look : Look) (now : ℕ) (key j : Bytes) (pool : BackendPool)
    → active j (reserve_idle look now key pool).0 ≡ changed key (active key pool + 1) j pool
unfolding reserve_idle
reserve_idle-active look now key j pool = store-active key j _ pool

keep-active :
    (key j : Bytes) (c : Pooled) (pool : BackendPool)
    → active j (keep key c pool) ≡ changed key (one_less (active key pool)) j pool
unfolding keep
keep-active key j c pool = store-active key j _ pool

give_back_missing :
    (key : Bytes) (pool : BackendPool) → lookup key pool.pools ≡ none → give_back key pool ≡ pool
unfolding give_back
give_back_missing key pool missing = rw (missing, give_back) refl

give_back_there :
    (key : Bytes) (e : PoolEntry) (pool : BackendPool)
    → lookup key pool.pools ≡ some e
    → give_back key pool ≡ store key (record e { active_count = one_less e.active_count }) pool
unfolding give_back
give_back_there key e pool there = rw (there, give_back) refl

missing-active :
    (key : Bytes) (pool : BackendPool) → lookup key pool.pools ≡ none → active key pool ≡ 0
unfolding entry_of entry_or_new
missing-active key pool missing = rw (missing, active) refl

there-active :
    (key : Bytes) (e : PoolEntry) (pool : BackendPool)
    → lookup key pool.pools ≡ some e
    → active key pool ≡ e.active_count
unfolding entry_of entry_or_new
there-active key e pool there = rw (there, active) refl

give_back-active :
    (key j : Bytes) (pool : BackendPool)
    → active j (give_back key pool) ≡ changed key (one_less (active key pool)) j pool
unfolding one_less
give_back-active key j pool = elim (Option-cases (lookup key pool.pools)) [
  | inl missing ↦
      rw (give_back_missing key pool missing)
        (ground (arith, missing-active key pool missing, text_eq_iff key j))
  | inr (e, there) ↦
      rw (give_back_there key e pool there, there-active key e pool there)
        (store-active key j (record e { active_count = one_less e.active_count }) pool)
]

pub evict-active :
    (j : Bytes) (backend : Backend) (c : Pooled) (pool : BackendPool)
    → active j (evict backend (some c) pool)
      ≡ changed (make_key backend) (one_less (active (make_key backend) pool)) j pool
unfolding evict
evict-active j backend c pool = give_back-active (make_key backend) j pool

pub release-active :
    (j : Bytes) (look : Look) (backend : Backend) (c : Pooled) (pool : BackendPool)
    → active j (release look backend (some c) pool)
      ≡ changed (make_key backend) (one_less (active (make_key backend) pool)) j pool
unfolding release
release-active j look backend c pool =
    either (alive look c) (keep (make_key backend) c pool) (evict backend (some c) pool)
      (keep-active (make_key backend) j c pool) (evict-active j backend c pool)
  where
    either :
        (b : Bool) (p q : BackendPool) {n : ℕ}
        → active j p ≡ n
        → active j q ≡ n
        → active j (if b then p else q) ≡ n
    either true p q h k = h
    either false p q h k = k

-- The count of the key is one more.
abbrev pub IsReserved : Bytes → BackendPool → BackendPool → Type 0
IsReserved key pool pool' = (j : Bytes) → active j pool' ≡ changed key (active key pool + 1) j pool

pub give_back-reserved :
    (key : Bytes) (pool pool' : BackendPool)
    → IsReserved key pool pool'
    → (j : Bytes) → changed key (one_less (active key pool')) j pool' ≡ active j pool
unfolding one_less
give_back-reserved key pool pool' h j =
    ground (arith, h key, h j, text_eq_iff key j, text_eq_iff key key)

abbrev pub IsAcquired : Bytes → BackendPool → BackendPool × Option Pooled → Type 0
IsAcquired key pool (pool', none) = (j : Bytes) → active j pool' ≡ active j pool
IsAcquired key pool (pool', some c) = IsReserved key pool pool'

acquire_new-IsAcquired :
    (ident now : ℕ) (dial : Dial) (backend : Backend) (pool pool' : BackendPool)
    → IsReserved (make_key backend) pool pool'
    → IsAcquired (make_key backend) pool (acquire_new ident now dial backend pool')
unfolding acquire_new
acquire_new-IsAcquired ident now dial backend pool pool' h =
    elim (Bool-cases (connect now dial (backend_connection backend)).1) [
      | inl ok ↦ rw (ok, acquire_new) h
      | inr failed ↦
          rw (failed, acquire_new)
            (λ j.
              give_back-active (make_key backend) j pool'
              ∙ give_back-reserved (make_key backend) pool pool' h j)
    ]

pub acquire-IsAcquired :
    (look : Look) (ident now : ℕ) (dial : Dial) (backend : Backend) (pool : BackendPool)
    → IsAcquired (make_key backend) pool (acquire look ident now dial backend pool)
unfolding acquire
acquire-IsAcquired look ident now dial backend pool =
    go (reserve_idle look now (make_key backend) pool).1 refl
  where
    go :
        (found : Option Pooled)
        → (reserve_idle look now (make_key backend) pool).1 ≡ found
        → IsAcquired (make_key backend) pool (acquire look ident now dial backend pool)
    go none e =
        rw (e, acquire)
          (acquire_new-IsAcquired ident now dial backend pool _
            (λ j. reserve_idle-active look now (make_key backend) j pool))
    go (some c) e = rw (e, acquire) (λ j. reserve_idle-active look now (make_key backend) j pool)
