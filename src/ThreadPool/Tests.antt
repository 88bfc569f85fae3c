-- ===== src/ThreadPool/Tests.antt =====
-- Runs of the thread pool, and its theorems on a few tasks.
use api_gateway.Prelude.{refl, [], arith, ℕ, ◌++◌, ◌∷◌, ◌≤◌, List, length, replicate, ◌≡◌}
use api_gateway.ThreadPool.{thrown, ends, take_task, try_submit, submit, enqueue}
use api_gateway.ThreadPool.Order.{
  Action, tries, submits, enqueues, takes, stops, new_log, act, act_all, act_all-started,
}
use api_gateway.ThreadPool.Draining.{act_all-drained}
use api_gateway.ThreadPool.Bound.{never_enqueues, act_all-le}

abbrev busy : List (Action ℕ)
busy = tries 1 ∷ submits 2 ∷ tries 3 ∷ takes ∷ submits 4 ∷ []

-- The third task is refused by a queue of two.
third_refused : (act_all busy (new_log 2)).submitted ≡ 1 ∷ 2 ∷ 4 ∷ []
unfolding act_all
third_refused = refl

-- `enqueue` does not look at the limit.
over_limit : length {A = ℕ} (act_all (enqueues 1 ∷ enqueues 2 ∷ []) (new_log 1)).pool.tasks ≡ 2
unfolding act_all
over_limit = refl

act_all-started_example :
    (act_all busy (new_log 2)).submitted
    ≡ (act_all busy (new_log 2)).started ++ (act_all busy (new_log 2)).pool.tasks
act_all-started_example = act_all-started 2 busy

act_all-le_example : length (act_all busy (new_log 2)).pool.tasks ≤ 2
unfolding never_enqueues
act_all-le_example = act_all-le 2 busy (omega arith) refl

act_all-drained_example :
    let w = act_all busy (new_log 2) in
    let v = act_all (replicate (length w.pool.tasks) takes) (act stops w) in
    (v.started ≡ w.submitted)
    × (take_task v.pool ≡ (ends, v.pool))
    × (try_submit 9 v.pool ≡ (thrown, v.pool))
    × (submit 9 v.pool ≡ (thrown, v.pool))
    × (enqueue 9 v.pool ≡ (thrown, v.pool))
act_all-drained_example = act_all-drained 2 busy 9
