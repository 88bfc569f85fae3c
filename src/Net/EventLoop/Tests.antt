-- ===== src/Net/EventLoop/Tests.antt =====
-- Runs of the event loop.
use api_gateway.Prelude.{ℕ, zero, suc, ◌≡◌, refl, true, ◌||◌, List, [], ◌∷◌, ◌++◌, is_empty, length}
use api_gateway.Prelude.Int.{pos}
use api_gateway.Net.EventLoop.Deferring.{
  Action, deferring, running, act_all, new_log, waiting, act_all-order, quota,
}
use api_gateway.Net.EventLoop.{run_deferred_tasks}

-- The task `suc n` defers the task `n`.
abbrev defers : ℕ → List ℕ
defers zero = []
defers (suc n) = n ∷ []

abbrev day : List (Action {Task = ℕ} defers)
day = deferring 2 ∷ deferring 7 ∷ deferring 1 ∷ running ∷ deferring 5 ∷ running ∷ []

in_order : (act_all defers day (new_log defers (pos 2))).executed ≡ 2 ∷ 7 ∷ 1 ∷ 1 ∷ []
unfolding act_all
in_order = refl

act_all-order_example :
    let w = act_all defers day (new_log defers (pos 2)) in
    (w.submitted ≡ w.executed ++ waiting defers w)
    × ((w.loop.woken || is_empty (waiting defers w)) ≡ true)
    × (length (run_deferred_tasks defers w.loop).1 ≡ quota (pos 2) (length (waiting defers w)))
act_all-order_example = act_all-order defers (pos 2) day
