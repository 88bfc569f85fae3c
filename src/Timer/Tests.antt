-- ===== src/Timer/Tests.antt =====
-- Runs of the timers, and their theorems at a queue of three.
use api_gateway.Prelude.Int.{pos}
use api_gateway.Prelude.{
  max, arith, ◌≤◌, ◌*◌, ◌≢◌, true, ◌+◌, All, false, map, none, refl, ◌<◌, List, [], some, ℕ, ◌∷◌,
  ◌≡◌,
}
use mathlib.Core.List.{Perm, filter_map}
use api_gateway.Timer.{
  ◌≡◌, TimerEntry, Timer, IsHeap, new_timer, cancel, run_every, tick, called, next_timeout_ms,
}
use api_gateway.Timer.Leaving.{runs, leaves, IsByTime}
use api_gateway.Timer.Ticking.{tick-runs_due}
use api_gateway.Timer.Cancelling.{Step, Reach, cancel-tick}
use api_gateway.Net.EventLoop.{compute_timeout_ms}
use api_gateway.Timer.Waiting.{compute_timeout_ms-live, next_timeout_ms-late}
use api_gateway.Timer.Sorted.{sorted_ops, expires_before, IsHeap-of_ordered}

abbrev once : TimerEntry ℕ
once = record {
  id = 1;
  expire_time = 10;
  interval_ms = pos 0;
  callback = some 7;
  cancelled = false;
}

abbrev dead : TimerEntry ℕ
dead = record { id = 2; expire_time = 20; interval_ms = pos 0; callback = none; cancelled = true }

abbrev beat : TimerEntry ℕ
beat = record {
  id = 3;
  expire_time = 30;
  interval_ms = pos 5;
  callback = some 8;
  cancelled = false;
}

abbrev far : TimerEntry ℕ
far = record {
  id = 4;
  expire_time = 9000000;
  interval_ms = pos 0;
  callback = some 9;
  cancelled = false;
}

abbrev queue : Timer ℕ
queue = record { heap = once ∷ dead ∷ beat ∷ far ∷ []; next_id = 5 }

-- The one that is due once and the periodic one run; the latter is set again.
tick_both :
    tick sorted_ops 40 queue
    ≡ some (record queue { heap = record beat { expire_time = 5000040 } ∷ far ∷ [] }, 7 ∷ 8 ∷ [])
unfolding tick sorted_ops expires_before
tick_both = refl

queue-IsHeap : IsHeap queue.heap
unfolding expires_before
queue-IsHeap =
    IsHeap-of_ordered queue.heap
      ((refl, (refl, (refl, tt))), ((refl, (refl, tt)), ((refl, tt), (tt, tt))))

tick-runs_due_example :
    (t' : Timer ℕ) × (es : List (TimerEntry ℕ)) × (tick sorted_ops 40 queue
      ≡ some (t', called (map (λ e. e.callback) es)))
    × Perm es (once ∷ beat ∷ [])
    × IsByTime es
    × Perm t'.heap (record beat { expire_time = 5000040 } ∷ far ∷ [])
    × IsHeap t'.heap
    × (t'.next_id ≡ 5)
unfolding filter_map runs leaves
tick-runs_due_example = tick-runs_due sorted_ops 40 queue queue-IsHeap

abbrev started : Timer ℕ
started = (run_every sorted_ops 0 (pos 5) (some 8) new_timer).1

cancel-tick_example :
    (u' : Timer ℕ) × (es : List (TimerEntry ℕ)) × (tick sorted_ops 9000000 (cancel 1 started)
      ≡ some (u', called (map (λ e. e.callback) es)))
    × Perm es (filter_map (runs 9000000) (cancel 1 started).heap)
    × All (λ e. e.id ≢ 1) es
unfolding run_every
cancel-tick_example =
    cancel-tick sorted_ops 1 9000000
      (Reach.next Reach.here (Step.every 0 (pos 5) (some 8) (omega arith) refl)) (omega arith)
      Reach.here

compute_timeout_ms-live_example :
    let wait = compute_timeout_ms (some (next_timeout_ms 0 queue)) 1000 in
    All (λ e. 0 + wait * 1000000 ≤ max 0 e.expire_time + 1000000) queue.heap
    × (wait ≤ max 1 1000)
    × (0 < wait)
compute_timeout_ms-live_example =
    compute_timeout_ms-live 0 1000 once (dead ∷ beat ∷ far ∷ []) 5 queue-IsHeap refl

next_timeout_ms-late_example :
    IsHeap (dead ∷ far ∷ beat ∷ [])
    × (ms : ℕ) × (next_timeout_ms 30 (record { heap = dead ∷ far ∷ beat ∷ []; next_id = 5 })
        ≡ pos ms)
    × (30 < 30 + ms * 1000000)
next_timeout_ms-late_example =
    next_timeout_ms-late 30 5 dead far beat refl refl refl (omega arith) (omega arith) (omega arith)
