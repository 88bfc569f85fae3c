-- ===== src/Timer/Leaving.antt =====
-- What runs in a round of the timers and what it leaves in the heap, entry by entry, in
-- src/timer/timer.cpp.
use api_gateway.Prelude.{
  refl, ◌&&◌, [], false, none, not, true, arith, length, some, ◌||◌, ◌≡◌, All, ◌<◌,
}
use mathlib.Core.List.{filter_map}
use api_gateway.Prelude.Perms.{sum}
use api_gateway.Timer.{
  negsuc, pos, is_positive, Option, if◌then◌else◌, ltb, ℤ, ◌∷◌, ◌≤◌, List, ℕ, TimerEntry, add_ms,
  rearmed,
}

pub add_ms-after : (now : ℕ) (ms : ℤ) → is_positive ms ≡ true → ltb now (add_ms now ms) ≡ true
unfolding add_ms
add_ms-after now (pos n) h = ground arith
add_ms-after now (negsuc n) h = cc

module _ {ℓ} {Callback : Type ℓ} where
  -- The entry that runs, if any.
  unfoldable pub runs : ℕ → TimerEntry Callback → Option (TimerEntry Callback)
  runs now e = if ltb now e.expire_time || e.cancelled then none else some e

  -- What an entry leaves in the heap.
  unfoldable pub leaves : ℕ → TimerEntry Callback → Option (TimerEntry Callback)
  unfolding rearmed
  leaves now e =
      if ltb now e.expire_time
      then some e
      else if not e.cancelled && is_positive e.interval_ms
      then some (rearmed now e)
      else none

  abbrev pub IsByTime : List (TimerEntry Callback) → Type 0
  IsByTime [] = Unit {0}
  IsByTime (e ∷ es) = All (λ x. e.expire_time ≤ x.expire_time) es × IsByTime es

  -- One if it has expired.
  unfoldable pub weight : ℕ → TimerEntry Callback → ℕ
  weight now e = if ltb now e.expire_time then 0 else 1

  unfoldable pub due_count : ℕ → List (TimerEntry Callback) → ℕ
  unfolding sum weight
  due_count now = sum (weight now)

  pub due_count-le : (now : ℕ) (xs : List (TimerEntry Callback)) → due_count now xs ≤ length xs
  unfolding due_count
  due_count-le now [] = omega arith
  due_count-le now (x ∷ xs) = ground (arith, due_count-le now xs)

  pub bounded :
      (b : ℕ) (now : ℕ) (xs : List (TimerEntry Callback))
      → All (λ e. b ≤ e.expire_time) xs
      → All (λ e. b ≤ e.expire_time) (filter_map (runs now) xs)
  unfolding runs filter_map
  bounded b now [] h = tt
  bounded b now (x ∷ xs) h = ground (arith, bounded b now xs h.1)

  module _ (now : ℕ) (e : TimerEntry Callback) (due : ltb now e.expire_time ≡ false) where
    pub leaves-cancelled : e.cancelled ≡ true → leaves now e ≡ none
    unfolding leaves
    leaves-cancelled dead = rw (due, dead) refl

    pub runs-cancelled : e.cancelled ≡ true → runs now e ≡ none
    unfolding runs
    runs-cancelled dead = rw (due, dead) refl

    pub runs-live : e.cancelled ≡ false → runs now e ≡ some e
    unfolding runs
    runs-live live = rw due (ground arith)

  -- Nothing of a heap whose first entry has not expired is due.
  pub none_due :
      (now b : ℕ) (xs : List (TimerEntry Callback))
      → now < b
      → All (λ e. b ≤ e.expire_time) xs
      → (filter_map (runs now) xs ≡ []) × (filter_map (leaves now) xs ≡ xs)
  unfolding runs leaves filter_map
  none_due now b [] lt h = (refl, refl)
  none_due now b (x ∷ xs) lt h = let (e, f) = none_due now b xs lt h.1 in ground (arith, h)
