-- ===== src/ThreadPool/Draining.antt =====
-- The destructor of the pool waits for the queued tasks, in src/utils/thread_pool.cpp.
use api_gateway.Prelude.{
  append_assoc, ◌∙◌, ap, append-nil, refl, ◌∷◌, ◌++◌, [], sym, length, replicate, ◌≡◌, List, ℕ,
}
use api_gateway.ThreadPool.{thrown, ends, try_submit, submit, enqueue, take_task, stop_all}
use api_gateway.ThreadPool.Order.{
  Action, Log, takes, stops, new_log, act, act_all, act-takes_some, act_all-started,
}

module _ {ℓ} {Task : Type ℓ} where
  drained :
      (ts : List Task) (w : Log Task)
      → w.pool.tasks ≡ ts
      → act_all (replicate (length ts) takes) w
        ≡ record w { pool = record w.pool { tasks = [] }; started = w.started ++ ts }
  unfolding act_all
  drained [] w e = rw (append-nil w.started, sym e) refl
  drained (job ∷ rest) w e =
      ap (act_all (replicate (length rest) takes)) (act-takes_some w job rest e)
      ∙ drained rest _ refl
      ∙ ap (λ ts. record w { pool = record w.pool { tasks = [] }; started = ts })
          (append_assoc w.started (job ∷ []) rest)

  -- After any interleaving, a stop and as many tasks taken as there are in the queue, every
  -- accepted task has been started, a worker ends, and every submission throws.
  pub act_all-drained :
      (max_queue_size : ℕ) (actions : List (Action Task)) (job : Task)
      → let w = act_all actions (new_log max_queue_size) in
        let v = act_all (replicate (length w.pool.tasks) takes) (act stops w) in
        (v.started ≡ w.submitted)
        × (take_task v.pool ≡ (ends, v.pool))
        × (try_submit job v.pool ≡ (thrown, v.pool))
        × (submit job v.pool ≡ (thrown, v.pool))
        × (enqueue job v.pool ≡ (thrown, v.pool))
  unfolding act stop_all take_task try_submit submit enqueue
  act_all-drained max_queue_size actions job =
      let w = act_all actions (new_log max_queue_size) in
      let e = drained w.pool.tasks (act stops w) refl in
      rw e (sym (act_all-started max_queue_size actions), refl, refl, refl, refl)
