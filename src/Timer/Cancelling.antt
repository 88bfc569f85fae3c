-- ===== src/Timer/Cancelling.antt =====
-- A cancelled timer never runs again, `cancel` of src/timer/timer.cpp.
use api_gateway.Prelude.Int.{ℤ}
use api_gateway.Prelude.Perms.{sum-Perm}
use api_gateway.Prelude.{
  map, ◌%◌, append-nil, ◌+◌, ◌++◌, ◌∙◌, Option, sym, ◌^◌, subst, ◌<◌, refl, [], ◌≢◌, All, arith,
}
use mathlib.Core.List.{perm_middle, Perm, filter_map}
use mathlib.Core.List.Perm
use api_gateway.Timer.{
  some, suc, ◌∷◌, ◌≡◌, ◌≤◌, List, ℕ, TimerEntry, Timer, IsHeap, HeapOps, new_timer, cancel,
  run_after, run_every, tick, called,
}
use api_gateway.Timer.Leaving.{runs}
use api_gateway.Timer.Counting.{
  has_id, is_live, count, live_count, count-mark, live_count-mark, live_count-mark_self,
  mark-IsHeap, count-leaves, live_count-leaves, count-runs, absent,
}
use api_gateway.Timer.Ticking.{tick-runs_due}

module _ {ℓ} {Callback : Type ℓ} where
  -- The array is a heap, and its numbers are different ones that have been given out.
  pub record IsValid (t : Timer Callback) : Type ℓ where
    pub heap : IsHeap t.heap
    pub distinct : (i : ℕ) → count i t.heap ≤ 1
    pub given : (i : ℕ) → t.next_id ≤ i → count i t.heap ≡ 0

  -- The number has been given out, and no entry that is not cancelled has it.
  abbrev IsSilent : ℕ → Timer Callback → Type 0
  IsSilent i t = (i < t.next_id) × (live_count i t.heap ≡ 0)

module _ {ℓ} {Callback : Type ℓ} (ops : HeapOps Callback) where
  -- The calls on a timer queue; fewer than 2^64 timers are set.
  pub data Step (t u : Timer Callback) : Type ℓ where
    after :
        (now : ℕ) (delay_ms : ℤ) (cb : Option Callback)
        → suc t.next_id < 2 ^ 64
        → u ≡ (run_after ops now delay_ms cb t).1
        → Step t u
    every :
        (now : ℕ) (interval_ms : ℤ) (cb : Option Callback)
        → suc t.next_id < 2 ^ 64
        → u ≡ (run_every ops now interval_ms cb t).1
        → Step t u
    cancels : (timer_id : ℕ) → u ≡ cancel timer_id t → Step t u
    ticks : (now : ℕ) (cs : List Callback) → tick ops now t ≡ some (u, cs) → Step t u

  pub data Reach (t : Timer Callback) : Timer Callback → Type ℓ where
    here : Reach t t
    next : {u v : Timer Callback} → Reach t u → Step u v → Reach t v

  new_timer-IsValid : IsValid (new_timer {Callback = Callback})
  unfolding count
  new_timer-IsValid = record {
    heap = λ i parent child p q. cc;
    distinct = λ i. omega arith;
    given = λ i h. refl;
  }

  module _ (t : Timer Callback) (e : TimerEntry Callback) (valid : IsValid t)
      (numbered : e.id ≡ t.next_id) (room : suc t.next_id < 2 ^ 64) where
    abbrev grown : Timer Callback
    grown = record { heap = ops.push_heap (t.heap ++ e ∷ []); next_id = (t.next_id + 1) % 2 ^ 64 }

    pushed : Perm grown.heap (e ∷ t.heap)
    pushed =
        rw append-nil at (Perm.trans (ops.pushes t.heap e valid.heap).1 (perm_middle t.heap []))

    grown-IsValid : IsValid grown
    unfolding count
    grown-IsValid = record {
      heap = (ops.pushes t.heap e valid.heap).0;
      distinct = λ i. ground (arith, sum-Perm (has_id i) pushed, valid.distinct i, valid.given i);
      given = λ i h. ground (arith, sum-Perm (has_id i) pushed, valid.given i);
    }

    grown-IsSilent : (i : ℕ) → IsSilent i t → IsSilent i grown
    unfolding live_count
    grown-IsSilent i (h, k) = (ground arith, ground (arith, sum-Perm (is_live i) pushed))

  Step-IsValid : {t u : Timer Callback} → Step t u → IsValid t → IsValid u
  unfolding run_after run_every cancel count
  Step-IsValid {t} {u} (after now ms cb room e) v =
      subst IsValid (sym e) (grown-IsValid t _ v refl room)
  Step-IsValid {t} {u} (every now ms cb room e) v =
      subst IsValid (sym e) (grown-IsValid t _ v refl room)
  Step-IsValid {t} {u} (cancels j e) v = subst IsValid (sym e) (record {
    heap = mark-IsHeap j t.heap v.heap;
    distinct = λ i. rw (count-mark i j t.heap) (v.distinct i);
    given = λ i h. count-mark i j t.heap ∙ v.given i h;
  })
  Step-IsValid {t} {u} (ticks now cs e) v =
      let (t', es, r, ran, sorted, left, h, same) = tick-runs_due ops now t v.heap in
      let next : t' ≡ u = cc in
      subst IsValid next (record {
        heap = h;
        distinct =
            λ i. omega (arith, sum-Perm (has_id i) left, count-leaves i now t.heap, v.distinct i);
        given =
            λ i k. omega (arith, sum-Perm (has_id i) left, count-leaves i now t.heap, v.given i);
      })

  pub Reach-IsValid : {t u : Timer Callback} → Reach t u → IsValid t → IsValid u
  Reach-IsValid here v = v
  Reach-IsValid (next r st) v = Step-IsValid st (Reach-IsValid r v)

  Step-IsSilent :
      {t u : Timer Callback} (i : ℕ) → Step t u → IsValid t → IsSilent i t → IsSilent i u
  unfolding run_after run_every cancel live_count
  Step-IsSilent {t} {u} i (after now ms cb room e) v q =
      subst (IsSilent i) (sym e) (grown-IsSilent t _ v refl room i q)
  Step-IsSilent {t} {u} i (every now ms cb room e) v q =
      subst (IsSilent i) (sym e) (grown-IsSilent t _ v refl room i q)
  Step-IsSilent {t} {u} i (cancels j e) v q =
      subst (IsSilent i) (sym e) (q.0, omega (arith, live_count-mark i j t.heap, q.1))
  Step-IsSilent {t} {u} i (ticks now cs e) v q =
      let (t', es, r, ran, sorted, left, h, same) = tick-runs_due ops now t v.heap in
      let next : t' ≡ u = cc in
      subst (IsSilent i) next (
        omega (arith, same, q.0),
        omega (arith, sum-Perm (is_live i) left, live_count-leaves i now t.heap, q.1),
      )

  Reach-IsSilent :
      {t u : Timer Callback} (i : ℕ) → Reach t u → IsValid t → IsSilent i t → IsSilent i u
  Reach-IsSilent i here v q = q
  Reach-IsSilent i (next r st) v q = Step-IsSilent i st (Reach-IsValid r v) (Reach-IsSilent i r v q)

  -- After any calls on a new timer queue that set fewer than 2^64 - 1 timers, and any calls after
  -- the cancelling of a number that has been given out, a round runs no entry with that number.
  pub cancel-tick :
      {t u : Timer Callback} (timer_id now : ℕ)
      → Reach new_timer t
      → timer_id < t.next_id
      → Reach (cancel timer_id t) u
      → (u' : Timer Callback) × (es : List (TimerEntry Callback)) × (tick ops now u
          ≡ some (u', called (map (λ e. e.callback) es)))
        × Perm es (filter_map (runs now) u.heap)
        × All (λ e. e.id ≢ timer_id) es
  unfolding cancel live_count count
  cancel-tick {t} {u} timer_id now before given after_ =
      let valid = Reach-IsValid before new_timer-IsValid in
      let marked = Step-IsValid (cancels timer_id refl) valid in
      let quiet = live_count-mark_self timer_id t.heap (valid.distinct timer_id) in
      let (less, none_live) = Reach-IsSilent timer_id after_ marked (given, quiet) in
      let (u', es, r, ran, sorted, left, h, same) =
        tick-runs_due ops now u (Reach-IsValid after_ marked).heap in
      (
        u',
        es,
        r,
        ran,
        absent timer_id es
            (omega (arith, sum-Perm (has_id timer_id) ran, count-runs timer_id now u.heap)),
      )
