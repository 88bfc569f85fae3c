-- ===== src/ThreadPool.antt =====
-- The worker threads' queue, src/utils/thread_pool.cpp and the `enqueue` of
use api_gateway.Prelude.{
  length, leb, false, ◌&&◌, [], ltb, ◌∷◌, Bool, List, if◌then◌else◌, true, ℕ, ◌++◌,
}
-- include/gateway/utils/thread_pool.h. What is done under the mutex is one step.
pub mod Order
mod Draining
mod Bound
mod Tests

module _ {ℓ} (Task : Type ℓ) where
  -- A limit of 0 is no limit.
  pub record ThreadPool : Type ℓ where
    pub tasks : List Task
    pub stop : Bool
    pub max_queue_size : ℕ

-- How a submission ends: it may be refused, throw, or have to wait.
pub data Submission : Type 0 where
  accepted refused thrown waits : Submission

-- What a worker finds in the queue.
pub data Found {ℓ} (Task : Type ℓ) : Type ℓ where
  task : Task → Found Task
  nothing : Found Task
  ends : Found Task

module _ {ℓ} {Task : Type ℓ} where
  abbrev pub thread_pool : ℕ → ThreadPool Task
  thread_pool max_queue_size = record { tasks = []; stop = false; max_queue_size = max_queue_size }

  -- `tasks_.emplace`
  unfoldable pub push_task : Task → ThreadPool Task → ThreadPool Task
  push_task job p = record p { tasks = p.tasks ++ job ∷ [] }

  -- `max_queue_size_ > 0 && tasks_.size() >= max_queue_size_`
  unfoldable pub is_full : ThreadPool Task → Bool
  is_full p = ltb 0 p.max_queue_size && leb p.max_queue_size (length p.tasks)

  unfoldable pub try_submit : Task → ThreadPool Task → Submission × ThreadPool Task
  unfolding push_task is_full
  try_submit job p =
      if p.stop
      then (thrown, p)
      else if is_full p
      then (refused, p)
      else (accepted, push_task job p)

  -- A submission that waits is tried again when it is woken.
  unfoldable pub submit : Task → ThreadPool Task → Submission × ThreadPool Task
  unfolding push_task is_full
  submit job p =
      if p.stop then (thrown, p) else if is_full p then (waits, p) else (accepted, push_task job p)

  unfoldable pub enqueue : Task → ThreadPool Task → Submission × ThreadPool Task
  unfolding push_task
  enqueue job p = if p.stop then (thrown, p) else (accepted, push_task job p)

  -- The worker's loop up to the call of the task.
  unfoldable pub take_task : ThreadPool Task → Found Task × ThreadPool Task
  take_task p = elim p.tasks [
    | [] ↦ if p.stop then (ends, p) else (nothing, p)
    | job ∷ rest ↦ (task job, record p { tasks = rest })
  ]

  -- The destructor, before it waits for the workers.
  unfoldable pub stop_all : ThreadPool Task → ThreadPool Task
  stop_all p = record p { stop = true }
