-- ===== src/Timer/Taking.antt =====
-- Taking the front entry out of the heap and running it, in `tick` of src/timer/timer.cpp.
use api_gateway.Prelude.{
  append-nil, refl, [], inr, inl, ◌++◌, true, Bool-cases, arith, none, some, false, ◌<◌, ◌≡◌, ◌∷◌,
}
use mathlib.Core.List.{filter_map, filter_map-cons-none, filter_map-cons-some, perm_middle}
use mathlib.Core.List.Perm
use api_gateway.Prelude.Perms.{sum-Perm}
use api_gateway.Timer.Leaving.{add_ms-after, runs, leaves, weight, due_count}
use api_gateway.Timer.{is_positive, ltb, Perm, List, ℕ, TimerEntry, IsHeap, HeapOps, rearmed, fire}

module _ {ℓ} {Callback : Type ℓ} (ops : HeapOps Callback) where
  -- What taking the front entry out of the heap and running it, or dropping it, comes to.
  abbrev pub Taken :
      ℕ → TimerEntry Callback → List (TimerEntry Callback) → List (TimerEntry Callback) → Type ℓ
  Taken now front rest heap =
      IsHeap heap
      × Perm (filter_map (leaves now) heap) (filter_map (leaves now) (front ∷ rest))
      × Perm (filter_map (runs now) heap) (filter_map (runs now) rest)
      × (due_count now heap < due_count now (front ∷ rest))

  module _ (now : ℕ) (front : TimerEntry Callback) (rest heap : List (TimerEntry Callback))
      (h : IsHeap heap) (p : Perm heap rest) (due : ltb now front.expire_time ≡ false) where
    fewer : due_count now heap < due_count now (front ∷ rest)
    unfolding due_count
    fewer = ground (arith, sum-Perm (weight now) p)

    pub dropped : leaves now front ≡ none → Taken now front rest heap
    dropped gone = (
      h,
      rw (filter_map-cons-none (leaves now) front rest gone) (Perm.filter_map (leaves now) p),
      Perm.filter_map (runs now) p,
      fewer,
    )

    armed :
        (r : TimerEntry Callback)
        → leaves now front ≡ some r
        → ltb now r.expire_time ≡ true
        → Taken now front rest (ops.push_heap (heap ++ r ∷ []))
    unfolding leaves runs due_count
    armed r left waits =
        let (h', q) = ops.pushes heap r h in
        let moved = rw append-nil at (Perm.trans q (perm_middle heap [])) in
        (
          h',
          Perm.trans (Perm.filter_map (leaves now) moved) (
              rw
                (
                  filter_map-cons-some (leaves now) r heap {b = r} (rw waits refl),
                  filter_map-cons-some (leaves now) front rest left,
                )
                (Perm.cons r (Perm.filter_map (leaves now) p))),
          Perm.trans (Perm.filter_map (runs now) moved) (
              rw (filter_map-cons-none (runs now) r heap (rw waits refl))
                (Perm.filter_map (runs now) p)),
          ground (arith, fewer, sum-Perm (weight now) moved),
        )

    pub fire-Taken : front.cancelled ≡ false → Taken now front rest (fire ops now front heap)
    unfolding fire leaves
    fire-Taken live = elim (Bool-cases (is_positive front.interval_ms)) [
      | inl periodic ↦ rw periodic (
          armed (rearmed now front) (rw (due, live, periodic) refl)
            (add_ms-after now front.interval_ms periodic))
      | inr once ↦ rw once (dropped rw (due, live, once) refl)
    ]
