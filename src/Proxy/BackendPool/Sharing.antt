-- ===== src/Proxy/BackendPool/Sharing.antt =====
-- No two callers hold one connection, however the critical sections of the pool interleave.
use api_gateway.Prelude.{Bool, true, false}
use api_gateway.Proxy.BackendPool.{cleanup_idle}
use api_gateway.Prelude.{
  ℕ, zero, suc, ◌+◌, ◌≤◌, ◌≡◌, refl, Bool, true, false, Option, none, some, List, [], ◌∷◌, Bytes,
  ltb, ◌==◌, if◌then◌else◌, Bool-cases, inl, inr, arith,
}
use api_gateway.Core.Config.{Backend}
use api_gateway.Proxy.LoadBalancer.{make_key}
use api_gateway.Proxy.BackendConnection.{Dial, connect, backend_connection}
use api_gateway.Proxy.BackendPool.{
  Pooled, BackendPool, Look, alive, reserve_idle, acquire_new, evict, keep, release, cleanup_idle,
  backend_pool, warm_up_backend,
}
use api_gateway.Proxy.BackendPool.Lending.{
  times, idle_times, optional_times, reserve_idle-times, give_back-times, keep-times, cleaned-times,
}

-- The pool, the connections that callers hold, and the identity of the next new connection.
pub record World : Type 0 where
  pub pool : BackendPool
  pub lent : List Pooled
  pub next : ℕ

-- One critical section each. A caller gives back the connection at a place of `lent`; past its end it
-- gives the null pointer.
pub data Action : Type 0 where
  reserving : Look → ℕ → Bytes → Action
  connecting_new : ℕ → Dial → Backend → Action
  releasing : Look → Backend → ℕ → Action
  evicting : Backend → ℕ → Action
  cleaning : ℕ → Action
  warming : Look → ℕ → Backend → Dial → Action

unfoldable pub lend : Option Pooled → List Pooled → List Pooled
lend none cs = cs
lend (some c) cs = c ∷ cs

unfoldable pub taken : ℕ → List Pooled → Option Pooled
taken n [] = none
taken zero (c ∷ cs) = some c
taken (suc n) (c ∷ cs) = taken n cs

unfoldable pub without : ℕ → List Pooled → List Pooled
without n [] = []
without zero (c ∷ cs) = cs
without (suc n) (c ∷ cs) = c ∷ without n cs

unfoldable pub act : Action → World → World
unfolding reserve_idle acquire_new release evict cleanup_idle warm_up_backend lend taken without
act (reserving look now key) w =
    let (pool', found) = reserve_idle look now key w.pool in
    record w { pool = pool'; lent = lend found w.lent }
act (connecting_new now dial backend) w =
    let (pool', found) = acquire_new w.next now dial backend w.pool in
    record { pool = pool'; lent = lend found w.lent; next = w.next + 1 }
act (releasing look backend n) w = record w {
  pool = release look backend (taken n w.lent) w.pool;
  lent = without n w.lent;
}
act (evicting backend n) w = record w {
  pool = evict backend (taken n w.lent) w.pool;
  lent = without n w.lent;
}
act (cleaning now) w = record w { pool = cleanup_idle now w.pool }
act (warming look now backend dial) w = record w {
  pool = warm_up_backend look now backend ((w.next, dial) ∷ []) w.pool;
  next = w.next + 1;
}

unfoldable pub act_all : List Action → World → World
unfolding act
act_all [] w = w
act_all (a ∷ actions) w = act_all actions (act a w)

lend-times :
    (i : ℕ) (found : Option Pooled) (cs : List Pooled)
    → times i (lend found cs) ≡ optional_times i found + times i cs
unfolding lend times
lend-times i none cs = omega arith
lend-times i (some c) cs = omega arith

taken-times :
    (i n : ℕ) (cs : List Pooled)
    → optional_times i (taken n cs) + times i (without n cs) ≡ times i cs
unfolding taken without times
taken-times i n [] = omega arith
taken-times i zero (c ∷ cs) = omega arith
taken-times i (suc n) (c ∷ cs) = omega (arith, taken-times i n cs)

evict-times :
    (i : ℕ) (backend : Backend) (c : Option Pooled) (pool : BackendPool)
    → idle_times i (evict backend c pool).pools ≡ idle_times i pool.pools
unfolding evict
evict-times i backend none pool = refl
evict-times i backend (some c) pool = give_back-times i (make_key backend) pool

keep_times-optional :
    (i : ℕ) (key : Bytes) (c : Pooled) (pool : BackendPool)
    → idle_times i (keep key c pool).pools ≤ idle_times i pool.pools + optional_times i (some c)
unfolding times
keep_times-optional i key c pool = omega (arith, keep-times i key c pool)

release-times :
    (i : ℕ) (look : Look) (backend : Backend) (c : Option Pooled) (pool : BackendPool)
    → idle_times i (release look backend c pool).pools
      ≤ idle_times i pool.pools + optional_times i c
unfolding release
release-times i look backend none pool = omega (arith, evict-times i backend none pool)
release-times i look backend (some c) pool =
    either (alive look c) (keep (make_key backend) c pool) (evict backend (some c) pool)
      (keep_times-optional i (make_key backend) c pool)
      (omega (arith, evict-times i backend (some c) pool))
  where
    either :
        (b : Bool) (p q : BackendPool)
        → idle_times i p.pools ≤ idle_times i pool.pools + optional_times i (some c)
        → idle_times i q.pools ≤ idle_times i pool.pools + optional_times i (some c)
        → idle_times i (if b then p else q).pools
          ≤ idle_times i pool.pools + optional_times i (some c)
    either true p q h k = h
    either false p q h k = k

-- A new connection is the only one with its identity.
acquire_new-times :
    (i ident now : ℕ) (dial : Dial) (backend : Backend) (pool : BackendPool)
    → let (pool', found) = acquire_new ident now dial backend pool in
      idle_times i pool'.pools + optional_times i found
      ≤ idle_times i pool.pools + (if ident == i then 1 else 0)
unfolding acquire_new
acquire_new-times i ident now dial backend pool =
    elim (Bool-cases (connect now dial (backend_connection backend)).1) [
      | inl ok ↦ ground arith
      | inr failed ↦ ground (arith, give_back-times i (make_key backend) pool)
    ]

warm-times :
    (i ident : ℕ) (look : Look) (now : ℕ) (backend : Backend) (dial : Dial) (pool : BackendPool)
    → idle_times i (warm_up_backend look now backend ((ident, dial) ∷ []) pool).pools
      ≤ idle_times i pool.pools + (if ident == i then 1 else 0)
unfolding warm_up_backend
warm-times i ident look now backend dial pool =
    let (c, ok) = connect now dial (backend_connection backend) in
    elim (Bool-cases ok) [
      | inl good ↦
          ground
            (arith, release-times i look backend (some (record { ident = ident; conn = c })) pool)
      | inr bad ↦ ground arith
    ]

-- Every connection is in one place at most, and a connection yet to come is nowhere.
abbrev IsSeparate : World → Type 0
IsSeparate w =
    (i : ℕ) → idle_times i w.pool.pools + times i w.lent ≤ (if ltb i w.next then 1 else 0)

act-IsSeparate : (a : Action) (w : World) → IsSeparate w → IsSeparate (act a w)
unfolding act
act-IsSeparate (reserving look now key) w h i = ground (
  arith,
  h i,
  reserve_idle-times i look now key w.pool,
  lend-times i (reserve_idle look now key w.pool).1 w.lent,
)
act-IsSeparate (connecting_new now dial backend) w h i = ground (
  arith,
  h i,
  acquire_new-times i w.next now dial backend w.pool,
  lend-times i (acquire_new w.next now dial backend w.pool).1 w.lent,
)
act-IsSeparate (releasing look backend n) w h i =
    ground
      (arith, h i, taken-times i n w.lent, release-times i look backend (taken n w.lent) w.pool)
act-IsSeparate (evicting backend n) w h i =
    ground (arith, h i, taken-times i n w.lent, evict-times i backend (taken n w.lent) w.pool)
act-IsSeparate (cleaning now) w h i =
    ground (arith, h i, cleaned-times i now w.pool.idle_timeout_sec w.pool.pools)
act-IsSeparate (warming look now backend dial) w h i =
    ground (arith, h i, warm-times i w.next look now backend dial w.pool)

act_all-IsSeparate :
    (actions : List Action) (w : World) → IsSeparate w → IsSeparate (act_all actions w)
unfolding act_all
act_all-IsSeparate [] w h = h
act_all-IsSeparate (a ∷ actions) w h = act_all-IsSeparate actions (act a w) (act-IsSeparate a w h)

abbrev pub new_world : ℕ → ℕ → World
new_world max_idle timeout = record { pool = backend_pool max_idle timeout; lent = []; next = 0 }

new_world-IsSeparate : (max_idle timeout : ℕ) → IsSeparate (new_world max_idle timeout)
unfolding idle_times times
new_world-IsSeparate max_idle timeout i = ground arith

-- Whatever the order in which callers run the critical sections of a new pool, including the
-- connecting between them, cleaning and warming up, each connection is at most once among the
-- idle ones and those that callers hold together: none is handed to two callers, and none is idle
-- while a caller holds it.
pub act_all-times :
    (max_idle timeout : ℕ) (actions : List Action) (i : ℕ)
    → let w = act_all actions (new_world max_idle timeout) in
      idle_times i w.pool.pools + times i w.lent ≤ 1
act_all-times max_idle timeout actions i = ground (
  arith,
  act_all-IsSeparate actions (new_world max_idle timeout) (new_world-IsSeparate max_idle timeout) i,
)
