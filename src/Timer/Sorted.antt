-- ===== src/Timer/Sorted.antt =====
-- Operations that keep the promises of a heap's, for src/timer/timer.cpp: the array is sorted.
use api_gateway.Prelude.{
  refl, zero, some, get_elem?, All, [], arith, suc, ◌≤◌, false, ltb, true, ℕ, ◌/◌, ◌∷◌, ◌++◌,
}
use api_gateway.Prelude.Sorting.{IsOrdered, Sorting, insertion, insertion_sort}
use api_gateway.Timer.{Bool, List, ◌≡◌, TimerEntry, IsHeap, HeapOps}

module _ {ℓ} {Callback : Type ℓ} where
  unfoldable pub expires_before : TimerEntry Callback → TimerEntry Callback → Bool
  expires_before a b = ltb a.expire_time b.expire_time

  pub before_asym :
      (a b : TimerEntry Callback) → expires_before a b ≡ true → expires_before b a ≡ false
  unfolding expires_before
  before_asym a b h = ground arith

  pub before_trans :
      (a b c : TimerEntry Callback)
      → expires_before a b ≡ false
      → expires_before b c ≡ false
      → expires_before a c ≡ false
  unfolding expires_before
  before_trans a b c h k = ground arith

  abbrev by_time : Sorting (expires_before)
  by_time = insertion expires_before before_asym before_trans

  behind :
      (e x : TimerEntry Callback) (xs : List (TimerEntry Callback)) (j : ℕ)
      → All (λ y. expires_before y e ≡ false) xs
      → get_elem? xs j ≡ some x
      → e.expire_time ≤ x.expire_time
  unfolding expires_before
  behind e x [] j h q = cc
  behind e x (y ∷ ys) zero h q = ground (arith, h.0)
  behind e x (y ∷ ys) (suc j) h q = behind e x ys j h.1 q

  ordered_get :
      (xs : List (TimerEntry Callback)) (i j : ℕ) (a b : TimerEntry Callback)
      → IsOrdered expires_before xs
      → i ≤ j
      → get_elem? xs i ≡ some a
      → get_elem? xs j ≡ some b
      → a.expire_time ≤ b.expire_time
  ordered_get [] i j a b h le p q = cc
  ordered_get (x ∷ xs) zero zero a b h le p q = ground arith
  ordered_get (x ∷ xs) zero (suc j) a b h le p q = let later = behind x b xs j h.0 q in ground arith
  ordered_get (x ∷ xs) (suc i) zero a b h le p q = absurd (omega arith)
  ordered_get (x ∷ xs) (suc i) (suc j) a b h le p q = ordered_get xs i j a b h.1 (omega arith) p q

  pub IsHeap-of_ordered :
      (xs : List (TimerEntry Callback)) → IsOrdered expires_before xs → IsHeap xs
  IsHeap-of_ordered xs h i parent child p q =
      ordered_get xs (i / 2) (suc i) parent child h (omega arith) p q

  unfoldable pub move_front : List (TimerEntry Callback) → List (TimerEntry Callback)
  unfolding insertion_sort
  move_front [] = []
  move_front (e ∷ rest) = insertion_sort expires_before rest ++ e ∷ []

  unfoldable pub sorted_ops : HeapOps Callback
  unfolding move_front
  sorted_ops = record {
    push_heap = insertion_sort expires_before;
    pop_heap = move_front;
    pushes = λ heap e h. (
      IsHeap-of_ordered _ (by_time.sort_ordered (heap ++ e ∷ [])),
      by_time.sort_perm (heap ++ e ∷ []),
    );
    pops = λ e rest h. (
      insertion_sort expires_before rest,
      refl,
      IsHeap-of_ordered _ (by_time.sort_ordered rest),
      by_time.sort_perm rest,
    );
  }
