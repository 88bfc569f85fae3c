-- ===== src/ThreadPool/Bound.antt =====
-- The limit of the pool's queue, in src/utils/thread_pool.cpp.
use api_gateway.Prelude.{
  refl, ap, length-append, [], arith, ◌++◌, ◌∷◌, inr, false, inl, ◌≤◌, Bool-cases, length, true,
  Bool, ◌<◌, ◌≡◌, List, ℕ,
}
use api_gateway.ThreadPool.{ThreadPool, push_task, is_full, try_submit, submit}
use api_gateway.ThreadPool.Order.{
  Action, Log, tries, submits, enqueues, takes, stops, new_log, note, act, act_all, act-takes_none,
  act-takes_some,
}

module _ {ℓ} {Task : Type ℓ} where
  -- Neither the tests nor a worker nor the destructor is `enqueue`.
  unfoldable pub never_enqueues : List (Action Task) → Bool
  never_enqueues [] = true
  never_enqueues (enqueues job ∷ actions) = false
  never_enqueues (tries job ∷ actions) = never_enqueues actions
  never_enqueues (submits job ∷ actions) = never_enqueues actions
  never_enqueues (takes ∷ actions) = never_enqueues actions
  never_enqueues (stops ∷ actions) = never_enqueues actions

  abbrev IsBounded : ℕ → Log Task → Type 0
  IsBounded n w = (w.pool.max_queue_size ≡ n) × (length w.pool.tasks ≤ n)

  room :
      (n : ℕ) (job : Task) (p : ThreadPool Task)
      → p.max_queue_size ≡ n
      → 0 < n
      → is_full p ≡ false
      → length (p.tasks ++ job ∷ []) ≤ n
  unfolding is_full
  room n job p e positive f = ground (arith, length-append p.tasks (job ∷ []))

  module _ (n : ℕ) (positive : 0 < n) where
    tries-IsBounded : (job : Task) (w : Log Task) → IsBounded n w → IsBounded n (act (tries job) w)
    unfolding act note try_submit push_task
    tries-IsBounded job w (e, le) = elim (Bool-cases w.pool.stop) [
      | inl s ↦ rw s (e, le)
      | inr s ↦ elim (Bool-cases (is_full w.pool)) [
        | inl f ↦ rw (s, f) (e, le)
        | inr f ↦ rw (s, f) (e, room n job w.pool e positive f)
      ]
    ]

    submits-IsBounded :
        (job : Task) (w : Log Task) → IsBounded n w → IsBounded n (act (submits job) w)
    unfolding act note submit push_task
    submits-IsBounded job w (e, le) = elim (Bool-cases w.pool.stop) [
      | inl s ↦ rw s (e, le)
      | inr s ↦ elim (Bool-cases (is_full w.pool)) [
        | inl f ↦ rw (s, f) (e, le)
        | inr f ↦ rw (s, f) (e, room n job w.pool e positive f)
      ]
    ]

    takes-IsBounded :
        (w : Log Task) (ts : List Task)
        → w.pool.tasks ≡ ts
        → IsBounded n w
        → IsBounded n (act takes w)
    takes-IsBounded w [] e b = rw (act-takes_none w e) b
    takes-IsBounded w (job ∷ rest) e (same, le) =
        rw (act-takes_some w job rest e) (same, omega (arith, ap length e))

    act_all-IsBounded :
        (actions : List (Action Task)) (w : Log Task)
        → never_enqueues actions ≡ true
        → IsBounded n w
        → IsBounded n (act_all actions w)
    unfolding act_all never_enqueues
    act_all-IsBounded [] w h b = b
    act_all-IsBounded (tries job ∷ actions) w h b =
        act_all-IsBounded actions (act (tries job) w) h (tries-IsBounded job w b)
    act_all-IsBounded (submits job ∷ actions) w h b =
        act_all-IsBounded actions (act (submits job) w) h (submits-IsBounded job w b)
    act_all-IsBounded (enqueues job ∷ actions) w h b = cc
    act_all-IsBounded (takes ∷ actions) w h b =
        act_all-IsBounded actions (act takes w) h (takes-IsBounded w w.pool.tasks refl b)
    act_all-IsBounded (stops ∷ actions) w h b = act_all-IsBounded actions (act stops w) h b

  -- Over any interleaving without `enqueue` on a new pool with a positive limit, no more tasks
  -- than the limit wait in the queue.
  pub act_all-le :
      (max_queue_size : ℕ) (actions : List (Action Task))
      → 0 < max_queue_size
      → never_enqueues actions ≡ true
      → length (act_all actions (new_log max_queue_size)).pool.tasks ≤ max_queue_size
  act_all-le max_queue_size actions positive never =
      (act_all-IsBounded max_queue_size positive actions (new_log max_queue_size) never
        (refl, omega arith)).1
