-- ===== src/Timer/Counting.antt =====
-- Counting the entries with a number, for `cancel` of src/timer/timer.cpp.
use api_gateway.Prelude.Perms.{sum}
use api_gateway.Prelude.{
  zero, inr, inl, refl, Bool-cases, [], not, ◌≢◌, All, arith, some, suc, ◌&&◌, ◌∷◌, get_elem?, ◌/◌,
  ◌==◌, ◌≡◌, ◌≤◌, List, if◌then◌else◌, ℕ,
}
use mathlib.Core.List.{filter_map}
use api_gateway.Timer.{TimerEntry, IsHeap, mark}
use api_gateway.Timer.Leaving.{runs, leaves}

module _ {ℓ} {Callback : Type ℓ} where
  -- One for an entry with the number, and for one that is not cancelled.
  unfoldable pub has_id : ℕ → TimerEntry Callback → ℕ
  has_id i e = if e.id == i then 1 else 0

  unfoldable pub is_live : ℕ → TimerEntry Callback → ℕ
  is_live i e = if e.id == i && not e.cancelled then 1 else 0

  unfoldable pub count : ℕ → List (TimerEntry Callback) → ℕ
  unfolding sum has_id
  count i = sum (has_id i)

  unfoldable pub live_count : ℕ → List (TimerEntry Callback) → ℕ
  unfolding sum is_live
  live_count i = sum (is_live i)

  pub live_count-le : (i : ℕ) (xs : List (TimerEntry Callback)) → live_count i xs ≤ count i xs
  unfolding live_count count
  live_count-le i [] = omega arith
  live_count-le i (x ∷ xs) = ground (arith, live_count-le i xs)

  pub count-mark : (i j : ℕ) (xs : List (TimerEntry Callback)) → count i (mark j xs) ≡ count i xs
  unfolding count mark
  count-mark i j [] = refl
  count-mark i j (x ∷ xs) = ground (arith, count-mark i j xs)

  pub live_count-mark :
      (i j : ℕ) (xs : List (TimerEntry Callback)) → live_count i (mark j xs) ≤ live_count i xs
  unfolding live_count mark
  live_count-mark i j [] = omega arith
  live_count-mark i j (x ∷ xs) = ground (arith, live_count-mark i j xs)

  pub live_count-mark_self :
      (i : ℕ) (xs : List (TimerEntry Callback)) → count i xs ≤ 1 → live_count i (mark i xs) ≡ 0
  unfolding live_count mark count
  live_count-mark_self i [] h = refl
  live_count-mark_self i (x ∷ xs) h = ground (arith, live_count-mark_self i xs, live_count-le i xs)

  pub get_elem?-mark :
      (j : ℕ) (xs : List (TimerEntry Callback)) (k : ℕ) (e : TimerEntry Callback)
      → get_elem? (mark j xs) k ≡ some e
      → (d : TimerEntry Callback) × (get_elem? xs k ≡ some d) × (d.expire_time ≡ e.expire_time)
  unfolding mark
  get_elem?-mark j [] k e q = cc
  get_elem?-mark j (x ∷ xs) zero e q = (x, refl, ground arith)
  get_elem?-mark j (x ∷ xs) (suc k) e q = elim (Bool-cases (x.id == j)) [
    | inl h ↦ (e, rw h at q, refl)
    | inr h ↦ get_elem?-mark j xs k e (rw h at q)
  ]

  pub mark-IsHeap : (j : ℕ) (xs : List (TimerEntry Callback)) → IsHeap xs → IsHeap (mark j xs)
  mark-IsHeap j xs h i parent child p q =
      let (a, pa, ea) = get_elem?-mark j xs (i / 2) parent p in
      let (b, pb, eb) = get_elem?-mark j xs (suc i) child q in
      let edge = h i a b pa pb in omega arith

  pub count-leaves :
      (i now : ℕ) (xs : List (TimerEntry Callback))
      → count i (filter_map (leaves now) xs) ≤ count i xs
  unfolding count filter_map leaves
  count-leaves i now [] = omega arith
  count-leaves i now (x ∷ xs) = ground (arith, count-leaves i now xs)

  pub live_count-leaves :
      (i now : ℕ) (xs : List (TimerEntry Callback))
      → live_count i (filter_map (leaves now) xs) ≤ live_count i xs
  unfolding live_count filter_map leaves
  live_count-leaves i now [] = omega arith
  live_count-leaves i now (x ∷ xs) = ground (arith, live_count-leaves i now xs)

  pub count-runs :
      (i now : ℕ) (xs : List (TimerEntry Callback))
      → count i (filter_map (runs now) xs) ≤ live_count i xs
  unfolding live_count filter_map runs count
  count-runs i now [] = omega arith
  count-runs i now (x ∷ xs) = ground (arith, count-runs i now xs)

  pub absent : (i : ℕ) (xs : List (TimerEntry Callback)) → count i xs ≡ 0 → All (λ e. e.id ≢ i) xs
  unfolding count
  absent i [] h = tt
  absent i (x ∷ xs) h = ground (arith, absent i xs)
