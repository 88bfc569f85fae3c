-- ===== src/Timer.antt =====
-- The timers, src/timer/timer.cpp: a heap of entries by the time at which they expire. A call that
-- takes the mutex is one step; times are nanoseconds of the steady clock, and a time before its
-- start counts as its start.
pub mod Leaving
pub mod Ticking
mod Order
mod Taking
mod Sorted
mod Counting
mod Cancelling
mod Waiting
mod Tests
use mathlib.Core.List.{Perm}
use mathlib.Core.Option
use api_gateway.Prelude.Int.{ℤ, pos, negsuc, is_positive}
use api_gateway.Prelude.{
  ◌^◌, ◌%◌, ◌*◌, Bool, ◌+◌, ◌-◌, ◌++◌, ◌≤◌, more, suc, ltb, true, ◌≡◌, done, some, ◌/◌, ◌==◌, Round,
  get_elem?, if◌then◌else◌, none, ◌∷◌, List, Option, [], false, length, loop, ℕ,
}

module _ {ℓ} (Callback : Type ℓ) where
  -- An empty function is `none`. The interval is 0 for a timer that fires once.
  pub record TimerEntry : Type ℓ where
    pub id : ℕ
    pub expire_time : ℕ
    pub interval_ms : ℤ
    pub callback : Option Callback
    pub cancelled : Bool

-- `now` later by a number of milliseconds.
unfoldable pub add_ms : ℕ → ℤ → ℕ
add_ms now (pos ms) = now + ms * 1000000
add_ms now (negsuc n) = now - suc n * 1000000

module _ {ℓ} {Callback : Type ℓ} where
  -- The order of the heap's array: no entry expires before its parent.
  abbrev pub IsHeap : List (TimerEntry Callback) → Type ℓ
  IsHeap heap =
      (i : ℕ) (parent child : TimerEntry Callback)
      → get_elem? heap (i / 2) ≡ some parent
      → get_elem? heap (suc i) ≡ some child
      → parent.expire_time ≤ child.expire_time

-- What `std::push_heap` and `std::pop_heap` promise with the order of the entries: one takes the
-- last entry into the heap before it, and the other moves the first entry behind a heap of the rest.
pub record HeapOps {ℓ} (Callback : Type ℓ) : Type ℓ where
  pub push_heap : List (TimerEntry Callback) → List (TimerEntry Callback)
  pub pop_heap : List (TimerEntry Callback) → List (TimerEntry Callback)
  pub pushes :
      (heap : List (TimerEntry Callback)) (e : TimerEntry Callback)
      → IsHeap heap
      → IsHeap (push_heap (heap ++ e ∷ [])) × Perm (push_heap (heap ++ e ∷ [])) (heap ++ e ∷ [])
  pub pops :
      (e : TimerEntry Callback) (rest : List (TimerEntry Callback))
      → IsHeap (e ∷ rest)
      → (heap : List (TimerEntry Callback)) × (pop_heap (e ∷ rest) ≡ heap ++ e ∷ [])
        × IsHeap heap
        × Perm heap rest

module _ {ℓ} (Callback : Type ℓ) where
  pub record Timer : Type ℓ where
    pub heap : List (TimerEntry Callback)
    pub next_id : ℕ

module _ {ℓ} {Callback : Type ℓ} where
  -- `back()` of a list that is not empty; the first argument is what is read if it is.
  unfoldable pub back : TimerEntry Callback → List (TimerEntry Callback) → TimerEntry Callback
  back e [] = e
  back e (x ∷ xs) = back x xs

  unfoldable pub pop_back : List (TimerEntry Callback) → List (TimerEntry Callback)
  pop_back [] = []
  pop_back (x ∷ []) = []
  pop_back (x ∷ y ∷ ys) = x ∷ pop_back (y ∷ ys)

  abbrev pub new_timer : Timer Callback
  new_timer = record { heap = []; next_id = 1 }

  -- The loop of `cancel`: the first entry with the number is marked.
  unfoldable pub mark : ℕ → List (TimerEntry Callback) → List (TimerEntry Callback)
  mark timer_id [] = []
  mark timer_id (e ∷ es) =
      if e.id == timer_id
      then record e { cancelled = true; callback = none } ∷ es
      else e ∷ mark timer_id es

  unfoldable pub cancel : ℕ → Timer Callback → Timer Callback
  unfolding mark
  cancel timer_id t = record t { heap = mark timer_id t.heap }

  -- The first entry of the array that is not cancelled, in the order of the array.
  unfoldable pub first_live : List (TimerEntry Callback) → Option (TimerEntry Callback)
  first_live [] = none
  first_live (e ∷ es) = if e.cancelled then first_live es else some e

  unfoldable pub remaining_ms : ℕ → Option (TimerEntry Callback) → ℤ
  remaining_ms now none = negsuc 0
  remaining_ms now (some e) = pos ((e.expire_time - now) / 1000000)

  unfoldable pub next_timeout_ms : ℕ → Timer Callback → ℤ
  unfolding first_live remaining_ms
  next_timeout_ms now t = remaining_ms now (first_live t.heap)

  unfoldable pub pending_count : Timer Callback → ℕ
  pending_count t = length t.heap

  -- `if (cb) cb();` over all that are ready: the ones that are called.
  unfoldable pub called : List (Option Callback) → List Callback
  called [] = []
  called (none ∷ cs) = called cs
  called (some c ∷ cs) = c ∷ called cs

  -- The entry that a periodic timer leaves behind.
  unfoldable pub rearmed : ℕ → TimerEntry Callback → TimerEntry Callback
  unfolding add_ms
  rearmed now e = record e { expire_time = add_ms now e.interval_ms; cancelled = false }

module _ {ℓ} {Callback : Type ℓ} (ops : HeapOps Callback) where
  unfoldable pub run_after : ℕ → ℤ → Option Callback → Timer Callback → ℕ × Timer Callback
  unfolding add_ms
  run_after now delay_ms cb t =
      let e : TimerEntry Callback = record {
        id = t.next_id;
        expire_time = add_ms now delay_ms;
        interval_ms = pos 0;
        callback = cb;
        cancelled = false;
      } in
      (
        t.next_id,
        record { heap = ops.push_heap (t.heap ++ e ∷ []); next_id = (t.next_id + 1) % 2 ^ 64 },
      )

  unfoldable pub run_every : ℕ → ℤ → Option Callback → Timer Callback → ℕ × Timer Callback
  unfolding add_ms
  run_every now interval_ms cb t =
      let e : TimerEntry Callback = record {
        id = t.next_id;
        expire_time = add_ms now interval_ms;
        interval_ms = interval_ms;
        callback = cb;
        cancelled = false;
      } in
      (
        t.next_id,
        record { heap = ops.push_heap (t.heap ++ e ∷ []); next_id = (t.next_id + 1) % 2 ^ 64 },
      )

  -- A due entry that is not cancelled, taken out of the heap.
  unfoldable pub fire :
      ℕ → TimerEntry Callback → List (TimerEntry Callback) → List (TimerEntry Callback)
  unfolding rearmed
  fire now e heap =
      if is_positive e.interval_ms then ops.push_heap (heap ++ rearmed now e ∷ []) else heap

  -- A round of the loop of `tick`, on the heap and the callbacks that are ready.
  unfoldable pub tick_round :
      ℕ
      → List (TimerEntry Callback) × List (Option Callback)
      → Round (List (TimerEntry Callback) × List (Option Callback))
  unfolding back pop_back fire
  tick_round now ([], ready) = done ([], ready)
  tick_round now (front ∷ rest, ready) =
      let popped = ops.pop_heap (front ∷ rest) in
      let e = back front popped in
      if ltb now front.expire_time
      then done (front ∷ rest, ready)
      else if front.cancelled
      then more (pop_back popped, ready)
      else more (fire now e (pop_back popped), ready ++ e.callback ∷ [])

  -- The result of `tick` is the callbacks that it runs, in order; one more round than there are
  -- entries is enough.
  abbrev ticked :
      Timer Callback
      → List (TimerEntry Callback) × List (Option Callback)
      → Timer Callback × List Callback
  ticked t (heap, ready) = (record t { heap = heap }, called ready)

  unfoldable pub tick : ℕ → Timer Callback → Option (Timer Callback × List Callback)
  unfolding loop tick_round called
  tick now t = Option.map (ticked t) (loop (suc (length t.heap)) (tick_round now) (t.heap, []))
