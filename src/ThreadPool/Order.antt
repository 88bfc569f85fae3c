-- ===== src/ThreadPool/Order.antt =====
-- The tasks over any interleaving of threads that submit and workers, in src/utils/thread_pool.cpp.
use api_gateway.Prelude.{
  sym, inr, ◌⊎◌, Bool-cases, inl, refl, ◌≢◌, append_assoc, ◌∙◌, ap, [], ◌∷◌, List, ℕ, ◌++◌, ◌≡◌,
}
use api_gateway.ThreadPool.{
  ◌++◌, ThreadPool, Submission, accepted, refused, thrown, waits, Found, thread_pool, push_task,
  is_full, try_submit, submit, enqueue, take_task, stop_all, task,
}

module _ {ℓ} (Task : Type ℓ) where
  pub data Action : Type ℓ where
    tries : Task → Action
    submits : Task → Action
    enqueues : Task → Action
    takes : Action
    stops : Action

  -- The pool, the tasks that were accepted and those that were started, in order.
  pub record Log : Type ℓ where
    pub pool : ThreadPool Task
    pub submitted : List Task
    pub started : List Task

module _ {ℓ} {Task : Type ℓ} where
  abbrev pub new_log : ℕ → Log Task
  new_log max_queue_size = record {
    pool = thread_pool max_queue_size;
    submitted = [];
    started = [];
  }

  unfoldable pub note : Task → Log Task → Submission × ThreadPool Task → Log Task
  note job w (accepted, p) = record w { pool = p; submitted = w.submitted ++ job ∷ [] }
  note job w (_, p) = record w { pool = p }

  unfoldable pub note_taken : Log Task → Found Task × ThreadPool Task → Log Task
  note_taken w (task job, p) = record w { pool = p; started = w.started ++ job ∷ [] }
  note_taken w (_, p) = record w { pool = p }

  unfoldable pub act : Action Task → Log Task → Log Task
  unfolding note note_taken try_submit submit enqueue take_task stop_all
  act (tries job) w = note job w (try_submit job w.pool)
  act (submits job) w = note job w (submit job w.pool)
  act (enqueues job) w = note job w (enqueue job w.pool)
  act takes w = note_taken w (take_task w.pool)
  act stops w = record w { pool = stop_all w.pool }

  unfoldable pub act_all : List (Action Task) → Log Task → Log Task
  unfolding act
  act_all [] w = w
  act_all (a ∷ actions) w = act_all actions (act a w)

  -- Every accepted task has been started or waits, in order.
  abbrev IsKept : Log Task → Type ℓ
  IsKept w = w.submitted ≡ w.started ++ w.pool.tasks

  push-IsKept :
      (job : Task) (w : Log Task)
      → IsKept w
      → IsKept (record w { pool = push_task job w.pool; submitted = w.submitted ++ job ∷ [] })
  unfolding push_task
  push-IsKept job w k = ap (λ ts. ts ++ job ∷ []) k ∙ append_assoc w.started w.pool.tasks (job ∷ [])

  -- A submission leaves the pool as it is, or puts the task behind the others.
  abbrev Submits : Task → ThreadPool Task → Submission × ThreadPool Task → Type ℓ
  Submits job p r =
      ((s : Submission) × (s ≢ accepted) × (r ≡ (s, p))) ⊎ (r ≡ (accepted, push_task job p))

  try_submit-Submits : (job : Task) (p : ThreadPool Task) → Submits job p (try_submit job p)
  unfolding try_submit
  try_submit-Submits job p = elim (Bool-cases p.stop) [
    | inl s ↦ inl (thrown, λ e. cc, rw s refl)
    | inr s ↦ elim (Bool-cases (is_full p)) [
      | inl f ↦ inl (refused, λ e. cc, rw (s, f) refl)
      | inr f ↦ inr (rw (s, f) refl)
    ]
  ]

  submit-Submits : (job : Task) (p : ThreadPool Task) → Submits job p (submit job p)
  unfolding submit
  submit-Submits job p = elim (Bool-cases p.stop) [
    | inl s ↦ inl (thrown, λ e. cc, rw s refl)
    | inr s ↦ elim (Bool-cases (is_full p)) [
      | inl f ↦ inl (waits, λ e. cc, rw (s, f) refl)
      | inr f ↦ inr (rw (s, f) refl)
    ]
  ]

  enqueue-Submits : (job : Task) (p : ThreadPool Task) → Submits job p (enqueue job p)
  unfolding enqueue
  enqueue-Submits job p = elim (Bool-cases p.stop) [
    | inl s ↦ inl (thrown, λ e. cc, rw s refl)
    | inr s ↦ inr (rw s refl)
  ]

  note_other :
      (job : Task) (w : Log Task) (s : Submission) → s ≢ accepted → note job w (s, w.pool) ≡ w
  unfolding note
  note_other job w accepted n = absurd (n refl)
  note_other job w refused n = refl
  note_other job w thrown n = refl
  note_other job w waits n = refl

  note-IsKept :
      (job : Task) (w : Log Task) (r : Submission × ThreadPool Task)
      → Submits job w.pool r
      → IsKept w
      → IsKept (note job w r)
  unfolding note
  note-IsKept job w r (inl (s, n, e)) k = rw (e, note_other job w s n) k
  note-IsKept job w r (inr e) k = rw e (push-IsKept job w k)

  -- A worker finds nothing in an empty queue, and otherwise takes the first task.
  module _ (w : Log Task) where
    pub act-takes_none : w.pool.tasks ≡ [] → act takes w ≡ w
    unfolding act note_taken take_task
    act-takes_none e = elim (Bool-cases w.pool.stop) [
      | inl s ↦ rw (e, s) refl
      | inr s ↦ rw (e, s) refl
    ]

    pub act-takes_some :
        (job : Task) (rest : List Task)
        → w.pool.tasks ≡ job ∷ rest
        → act takes w
          ≡ record w { pool = record w.pool { tasks = rest }; started = w.started ++ job ∷ [] }
    unfolding act note_taken take_task
    act-takes_some job rest e = rw e refl

  takes-IsKept :
      (w : Log Task) (ts : List Task) → w.pool.tasks ≡ ts → IsKept w → IsKept (act takes w)
  takes-IsKept w [] e k = rw (act-takes_none w e) k
  takes-IsKept w (job ∷ rest) e k =
      rw (act-takes_some w job rest e)
        (k ∙ ap (λ ts. w.started ++ ts) e ∙ sym (append_assoc w.started (job ∷ []) rest))

  act-IsKept : (a : Action Task) (w : Log Task) → IsKept w → IsKept (act a w)
  unfolding act
  act-IsKept (tries job) w k = note-IsKept job w _ (try_submit-Submits job w.pool) k
  act-IsKept (submits job) w k = note-IsKept job w _ (submit-Submits job w.pool) k
  act-IsKept (enqueues job) w k = note-IsKept job w _ (enqueue-Submits job w.pool) k
  act-IsKept takes w k = takes-IsKept w w.pool.tasks refl k
  act-IsKept stops w k = k

  act_all-IsKept :
      (actions : List (Action Task)) (w : Log Task) → IsKept w → IsKept (act_all actions w)
  unfolding act_all
  act_all-IsKept [] w k = k
  act_all-IsKept (a ∷ actions) w k = act_all-IsKept actions (act a w) (act-IsKept a w k)

  -- Over any interleaving of threads that submit in the three ways, workers that take tasks and a
  -- stop, on a new pool with any limit, the accepted tasks are the started ones and then those in
  -- the queue, in the order in which they were accepted.
  pub act_all-started :
      (max_queue_size : ℕ) (actions : List (Action Task))
      → let w = act_all actions (new_log max_queue_size) in w.submitted ≡ w.started ++ w.pool.tasks
  act_all-started max_queue_size actions = act_all-IsKept actions (new_log max_queue_size) refl
