-- ===== src/Timer/Waiting.antt =====
-- How long the event loop waits for the timers: `next_timeout_ms` of src/timer/timer.cpp as
-- `compute_timeout_ms` of src/net/event_loop.cpp uses it.
use api_gateway.Prelude.Perms.{All-mono}
use api_gateway.Prelude.Int.{pos}
use api_gateway.Prelude.{
  sym, subst, some, zero, arith, refl, ◌/◌, suc, ◌-◌, max, ◌<◌, [], ◌*◌, All, ◌+◌, ◌≤◌, false, true,
  ◌∷◌, List, ◌≡◌, ℕ,
}
use api_gateway.Timer.{Timer, TimerEntry, IsHeap, first_live, remaining_ms, next_timeout_ms}
use api_gateway.Net.EventLoop.{compute_timeout_ms}
use api_gateway.Timer.Order.{root_least}

wait_lem :
    (ms default_ms : ℕ)
    → (compute_timeout_ms (some (pos ms)) default_ms ≤ max 1 ms)
      × (compute_timeout_ms (some (pos ms)) default_ms ≤ max 1 default_ms)
      × (0 < compute_timeout_ms (some (pos ms)) default_ms)
unfolding compute_timeout_ms
wait_lem ms default_ms = (ground arith, ground arith, ground arith)

module _ {ℓ} {Callback : Type ℓ} where
  -- When the first entry is not cancelled, the timeout is its time left in whole milliseconds, and
  -- no entry expires earlier than that.
  next_timeout_ms-live :
      (now : ℕ) (front : TimerEntry Callback) (rest : List (TimerEntry Callback)) (next_id : ℕ)
      → IsHeap (front ∷ rest)
      → front.cancelled ≡ false
      → (ms : ℕ) × (next_timeout_ms now (record { heap = front ∷ rest; next_id = next_id })
          ≡ pos ms)
        × All (λ e. now + ms * 1000000 ≤ max now e.expire_time) (front ∷ rest)
        × (max now front.expire_time < now + suc ms * 1000000)
  unfolding next_timeout_ms remaining_ms first_live
  next_timeout_ms-live now front rest next_id h live = (
    (front.expire_time - now) / 1000000,
    rw (live, remaining_ms) refl,
    All-mono (λ e le. omega arith) (front ∷ rest) (root_least front rest h),
    omega arith,
  )

  three-IsHeap :
      (a b c : TimerEntry Callback)
      → a.expire_time ≤ b.expire_time
      → a.expire_time ≤ c.expire_time
      → IsHeap (a ∷ b ∷ c ∷ [])
  three-IsHeap a b c h k zero parent child p q = ground arith
  three-IsHeap a b c h k (suc zero) parent child p q = ground arith
  three-IsHeap a b c h k (suc (suc i)) parent child p q = cc

  -- When of three entries the first is cancelled and the other two are not, the third is due
  -- neither before the first nor before now, and a millisecond or more before the second, the
  -- array is a heap, and the timeout lies behind the time of the third.
  pub next_timeout_ms-late :
      (now next_id : ℕ) (first second third : TimerEntry Callback)
      → first.cancelled ≡ true
      → second.cancelled ≡ false
      → third.cancelled ≡ false
      → first.expire_time ≤ third.expire_time
      → third.expire_time + 1000000 ≤ second.expire_time
      → now ≤ third.expire_time
      → IsHeap (first ∷ second ∷ third ∷ [])
        × (ms : ℕ) × (next_timeout_ms now
              (record { heap = first ∷ second ∷ third ∷ []; next_id = next_id })
            ≡ pos ms)
        × (third.expire_time < now + ms * 1000000)
  unfolding next_timeout_ms remaining_ms first_live
  next_timeout_ms-late now next_id first second third dead live live3 le late due = (
    three-IsHeap first second third (omega arith) le,
    (second.expire_time - now) / 1000000,
    rw (dead, live, remaining_ms) refl,
    omega arith,
  )

  abbrev InTime : ℕ → ℕ → List (TimerEntry Callback) → ℕ → Type 0
  InTime now default_ms heap wait =
      All (λ e. now + wait * 1000000 ≤ max now e.expire_time + 1000000) heap
      × (wait ≤ max 1 default_ms)
      × (0 < wait)

  -- When the first entry of a heap of timers is not cancelled, the event loop waits at least a
  -- millisecond, at most its default or a millisecond, and at most a millisecond beyond the time
  -- of any entry, or beyond now when that has passed.
  pub compute_timeout_ms-live :
      (now default_ms : ℕ) (front : TimerEntry Callback) (rest : List (TimerEntry Callback))
      (next_id : ℕ)
      → IsHeap (front ∷ rest)
      → front.cancelled ≡ false
      → let t : Timer Callback = record { heap = front ∷ rest; next_id = next_id } in
        let wait = compute_timeout_ms (some (next_timeout_ms now t)) default_ms in
        All (λ e. now + wait * 1000000 ≤ max now e.expire_time + 1000000) (front ∷ rest)
        × (wait ≤ max 1 default_ms)
        × (0 < wait)
  compute_timeout_ms-live now default_ms front rest next_id h live =
      let (ms, e, bound, close) = next_timeout_ms-live now front rest next_id h live in
      let (short, capped, positive) = wait_lem ms default_ms in
      subst (λ n. InTime now default_ms (front ∷ rest) (compute_timeout_ms (some n) default_ms))
        (sym e) (All-mono (λ x le. omega (arith, short)) (front ∷ rest) bound, capped, positive)
