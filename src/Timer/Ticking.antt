-- ===== src/Timer/Ticking.antt =====
-- A round of the timers runs what is due, `tick` of src/timer/timer.cpp.
use native.Mathlib.Bridge.{le_prop}
use api_gateway.Prelude.{
  zero, inr, ltb→lt, append_assoc, inl, Bool-cases, refl, true, ◌∙◌, append-nil, false, length,
  loop-more, lt→ltb, ◌≤◌, All, loop-done, ltb, none, [], arith, map, more, suc, ◌++◌, ◌<◌, ◌∷◌,
}
use mathlib.Core.List.{filter_map, filter_map-cons-none, filter_map-cons-some}
use mathlib.Core.List.Perm
use api_gateway.Prelude.Perms.{All-Perm}
use api_gateway.Timer.Leaving.{
  runs, leaves, IsByTime, due_count, due_count-le, bounded, leaves-cancelled, runs-cancelled,
  runs-live, none_due,
}
use api_gateway.Timer.Taking.{Taken, dropped, fire-Taken}
use api_gateway.Timer.Order.{root_least, back-append, pop_back-append}
use api_gateway.Timer.{
  Perm, loop, some, Option, ◌≡◌, List, ℕ, TimerEntry, Timer, IsHeap, HeapOps, fire, tick_round,
  tick, called,
}

module _ {ℓ} {Callback : Type ℓ} (ops : HeapOps Callback) where
  -- What the loop of `tick` returns from a heap and the callbacks ready before.
  abbrev IsTicked :
      ℕ
      → List (TimerEntry Callback)
      → List (Option Callback)
      → List (TimerEntry Callback) × List (Option Callback)
      → Type ℓ
  IsTicked now heap ready (heap', ready') =
      (es : List (TimerEntry Callback)) × (ready' ≡ ready ++ map (λ e. e.callback) es)
      × IsHeap heap'
      × Perm heap' (filter_map (leaves now) heap)
      × Perm es (filter_map (runs now) heap)
      × IsByTime es

  abbrev Ticks : ℕ → ℕ → List (TimerEntry Callback) → List (Option Callback) → Type ℓ
  Ticks fuel now heap ready =
      (s : List (TimerEntry Callback) × List (Option Callback)) × (loop fuel (tick_round ops now)
          (heap, ready)
        ≡ some s)
      × IsTicked now heap ready s

  module _ (fuel now : ℕ) (front : TimerEntry Callback) (rest heap : List (TimerEntry Callback))
      (ready : List (Option Callback)) where
    round-drop :
        ops.pop_heap (front ∷ rest) ≡ heap ++ front ∷ []
        → ltb now front.expire_time ≡ false
        → front.cancelled ≡ true
        → tick_round ops now (front ∷ rest, ready) ≡ more (heap, ready)
    unfolding tick_round
    round-drop e due dead = rw (e, pop_back-append front heap, due, dead) refl

    round-run :
        ops.pop_heap (front ∷ rest) ≡ heap ++ front ∷ []
        → ltb now front.expire_time ≡ false
        → front.cancelled ≡ false
        → tick_round ops now (front ∷ rest, ready)
          ≡ more (fire ops now front heap, ready ++ front.callback ∷ [])
    unfolding tick_round
    round-run e due live =
        rw (e, pop_back-append front heap, back-append front front heap, due, live) refl

    -- A cancelled entry is dropped.
    Ticks-drop :
        tick_round ops now (front ∷ rest, ready) ≡ more (heap, ready)
        → Taken ops now front rest heap
        → runs now front ≡ none
        → Ticks fuel now heap ready
        → Ticks (suc fuel) now (front ∷ rest) ready
    Ticks-drop e (h, p, q, f) idle (s, r, (es, ran, h', left, gone, sorted)) = (
      s,
      loop-more (tick_round ops now) fuel (front ∷ rest, ready) (heap, ready) e ∙ r,
      (
        es,
        ran,
        h',
        Perm.trans left p,
        rw (filter_map-cons-none (runs now) front rest idle) (Perm.trans gone q),
        sorted,
      ),
    )

    -- A due entry is run before those behind it.
    Ticks-run :
        tick_round ops now (front ∷ rest, ready) ≡ more (heap, ready ++ front.callback ∷ [])
        → Taken ops now front rest heap
        → runs now front ≡ some front
        → All (λ x. front.expire_time ≤ x.expire_time) rest
        → Ticks fuel now heap (ready ++ front.callback ∷ [])
        → Ticks (suc fuel) now (front ∷ rest) ready
    Ticks-run e (h, p, q, f) busy least (s, r, (es, ran, h', left, gone, sorted)) = (
      s,
      loop-more (tick_round ops now) fuel (front ∷ rest, ready) (heap, ready ++ front.callback ∷ [])
            e
          ∙ r,
      (
        front ∷ es,
        ran ∙ append_assoc ready (front.callback ∷ []) (map (λ x. x.callback) es),
        h',
        Perm.trans left p,
        rw (filter_map-cons-some (runs now) front rest busy) (Perm.cons front (Perm.trans gone q)),
        (
          All-Perm (λ x. le_prop) (Perm.symm (Perm.trans gone q))
              (bounded front.expire_time now rest least),
          sorted,
        ),
      ),
    )

    Ticks-stop :
        now < front.expire_time → IsHeap (front ∷ rest) → Ticks (suc fuel) now (front ∷ rest) ready
    unfolding tick_round
    Ticks-stop late h =
        let (none_run, all_left) =
          none_due now front.expire_time (front ∷ rest) late (root_least front rest h) in
        (
          (front ∷ rest, ready),
          loop-done (tick_round ops now) fuel (front ∷ rest, ready) (front ∷ rest, ready)
              (rw (lt→ltb now front.expire_time late) refl),
          ([], simp append-nil, h, rw all_left Perm.rfl, rw none_run Perm.rfl, tt),
        )

  loop-Ticks :
      (fuel now : ℕ) (heap : List (TimerEntry Callback)) (ready : List (Option Callback))
      → due_count now heap < fuel
      → IsHeap heap
      → Ticks fuel now heap ready
  unfolding tick_round filter_map
  loop-Ticks zero now heap ready f h = absurd (omega arith)
  loop-Ticks (suc fuel) now [] ready f h = (
    ([], ready),
    loop-done (tick_round ops now) fuel ([], ready) ([], ready) refl,
    ([], simp append-nil, h, Perm.rfl, Perm.rfl, tt),
  )
  loop-Ticks (suc fuel) now (front ∷ rest) ready f h =
      let (heap, e, h', p) = ops.pops front rest h in
      elim (Bool-cases (ltb now front.expire_time)) [
        | inl late ↦ Ticks-stop fuel now front rest heap ready (ltb→lt now front.expire_time late) h
        | inr due ↦ elim (Bool-cases front.cancelled) [
          | inl dead ↦
              let drop =
                dropped ops now front rest heap h' p due (leaves-cancelled now front due dead) in
              Ticks-drop fuel now front rest heap ready
                (round-drop fuel now front rest heap ready e due dead) drop
                (runs-cancelled now front due dead)
                (loop-Ticks fuel now heap ready (omega (arith, drop)) h')
          | inr live ↦
              let run = fire-Taken ops now front rest heap h' p due live in
              let heap' = fire ops now front heap in
              Ticks-run fuel now front rest heap' ready
                (round-run fuel now front rest heap ready e due live) run
                (runs-live now front due live) (root_least front rest h).1
                (loop-Ticks fuel now heap' (ready ++ front.callback ∷ []) (omega (arith, run))
                  run.0)
        ]
      ]

  -- On any heap a round of the timers ends and runs exactly the entries that have expired and are
  -- not cancelled, each once and by their time; what stays is exactly the entries that have not
  -- expired and the periodic ones that ran, set again an interval after now, and it is a heap
  -- again.
  pub tick-runs_due :
      (now : ℕ) (t : Timer Callback)
      → IsHeap t.heap
      → (t' : Timer Callback) × (es : List (TimerEntry Callback)) × (tick ops now t
          ≡ some (t', called (map (λ e. e.callback) es)))
        × Perm es (filter_map (runs now) t.heap)
        × IsByTime es
        × Perm t'.heap (filter_map (leaves now) t.heap)
        × IsHeap t'.heap
        × (t'.next_id ≡ t.next_id)
  unfolding tick
  tick-runs_due now t h =
      let ((heap, ready), r, (es, ran, h', left, gone, sorted)) =
        loop-Ticks (suc (length t.heap)) now t.heap [] (omega (arith, due_count-le now t.heap)) h in
      (record t { heap = heap }, es, rw (r, ran) refl, gone, sorted, left, h', refl)
