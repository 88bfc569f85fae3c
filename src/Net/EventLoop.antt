-- ===== src/Net/EventLoop.antt =====
-- The event loop: the tasks that other threads defer, the registrations, and the timeout, in
-- src/net/event_loop.cpp. A task is known by what it defers itself when it is run. The counts of
-- tasks stay below 2^31.
pub mod Deferring
pub mod Running
mod RunTests
mod Tests
use api_gateway.Prelude.{
  ℕ, ◌+◌, Bool, true, false, not, ◌||◌, ◌&&◌, Option, none, some, List, [], ◌∷◌, ◌++◌, length, take,
  drop, ltb, is_empty, if◌then◌else◌,
}
use api_gateway.Prelude.Int.{ℤ, pos, negsuc}
use api_gateway.Prelude.Map.{nat_key, insert, erase}

module _ {ℓ} (Task : Type ℓ) where
  -- `woken` says that the eventfd has been written to since it was last read.
  pub record EventLoop : Type ℓ where
    pub deferred_tasks : List Task
    pub pending_tasks : List Task
    pub max_deferred_per_round : ℤ
    pub woken : Bool

-- How many of the tasks one round runs.
unfoldable pub batch : ℤ → ℕ → ℕ
batch (pos limit) total = if ltb 0 limit && ltb limit total then limit else total
batch (negsuc n) total = total

module _ {ℓ} {Task : Type ℓ} where
  abbrev pub event_loop : ℤ → EventLoop Task
  event_loop max_deferred = record {
    deferred_tasks = [];
    pending_tasks = [];
    max_deferred_per_round = max_deferred;
    woken = false;
  }

  unfoldable pub defer : Task → EventLoop Task → EventLoop Task
  defer task l = record l { deferred_tasks = l.deferred_tasks ++ task ∷ []; woken = true }

  -- The tasks that the executed ones defer, in order.
  unfoldable pub deferred_by : (Task → List Task) → List Task → List Task
  deferred_by defers [] = []
  deferred_by defers (t ∷ ts) = defers t ++ deferred_by defers ts

  -- The eventfd is read, and the tasks are run: the first result is the tasks that were executed.
  unfoldable pub run_deferred_tasks :
      (Task → List Task) → EventLoop Task → EventLoop Task × List Task
  unfolding batch deferred_by
  run_deferred_tasks defers l =
      let tasks = l.pending_tasks ++ l.deferred_tasks in
      let n = batch l.max_deferred_per_round (length tasks) in
      (
        record l {
          deferred_tasks = deferred_by defers (take n tasks);
          pending_tasks = drop n tasks;
          woken =
              not (is_empty (deferred_by defers (take n tasks))) || not (is_empty (drop n tasks));
        },
        take n tasks,
      )

-- The epoll instance's registrations; whether `epoll_ctl` succeeds is an argument.
abbrev pub Registrations : Type 0
Registrations = List (ℕ × ℕ)

unfoldable pub add_fd : Bool → ℕ → ℕ → Registrations → Registrations
add_fd ok fd events m = if ok then insert fd events m else erase fd (insert fd events m)

unfoldable pub mod_fd : Bool → ℕ → ℕ → Registrations → Registrations
mod_fd ok fd events m = if ok then insert fd events m else erase fd (insert fd events m)

-- `next_timeout_ms` of the timer, if there is one. The default is not negative.
unfoldable pub compute_timeout_ms : Option ℤ → ℕ → ℕ
compute_timeout_ms none default_ms = default_ms
compute_timeout_ms (some (negsuc n)) default_ms = default_ms
compute_timeout_ms (some (pos timer_timeout)) default_ms =
    let effective = if ltb timer_timeout default_ms then timer_timeout else default_ms in
    if ltb 0 effective then effective else 1
