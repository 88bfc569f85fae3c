-- ===== src/Timer/Order.antt =====
-- The heap's array, and what a popped entry leaves, in src/timer/timer.cpp.
use api_gateway.Prelude.{refl, ◌/◌, get_elem?-lt, zero, arith, length, suc, ◌≤◌, All, ap, ◌<◌}
use api_gateway.Timer.{
  some, [], ◌≡◌, get_elem?, ◌++◌, ◌∷◌, List, ℕ, TimerEntry, IsHeap, back, pop_back,
}

lt_of_get_elem? {ℓ} :
    {A : Type ℓ} (xs : List A) (i : ℕ) (a : A) → get_elem? xs i ≡ some a → i < length xs
lt_of_get_elem? [] i a q = cc
lt_of_get_elem? (x ∷ xs) zero a q = omega arith
lt_of_get_elem? (x ∷ xs) (suc i) a q = omega (arith, lt_of_get_elem? xs i a q)

module _ {ℓ} {Callback : Type ℓ} where
  root_below :
      (k : ℕ) (root : TimerEntry Callback) (rest : List (TimerEntry Callback))
      → IsHeap (root ∷ rest)
      → (i : ℕ) (e : TimerEntry Callback) → i < k
      → get_elem? (root ∷ rest) i ≡ some e
      → root.expire_time ≤ e.expire_time
  root_below zero root rest h i e f q = absurd (omega arith)
  root_below (suc k) root rest h zero e f q = ground arith
  root_below (suc k) root rest h (suc j) e f q =
      let within = lt_of_get_elem? (root ∷ rest) (suc j) e q in
      let (parent, r) = get_elem?-lt (root ∷ rest) (j / 2) (omega arith) in
      let above = root_below k root rest h (j / 2) parent (omega arith) r in
      let edge = h j parent e r q in omega arith

  All-of_get_elem? {κ} :
      (P : TimerEntry Callback → Type κ) (xs : List (TimerEntry Callback))
      → ((i : ℕ) (e : TimerEntry Callback) → get_elem? xs i ≡ some e → P e)
      → All P xs
  All-of_get_elem? P [] h = tt
  All-of_get_elem? P (x ∷ xs) h = (h 0 x refl, All-of_get_elem? P xs λ i e q. h (suc i) e q)

  -- The first entry expires before all others.
  pub root_least :
      (root : TimerEntry Callback) (rest : List (TimerEntry Callback))
      → IsHeap (root ∷ rest)
      → All (λ e. root.expire_time ≤ e.expire_time) (root ∷ rest)
  root_least root rest h =
      All-of_get_elem? _ (root ∷ rest) λ i e q. root_below (suc i) root rest h i e (omega arith) q

  pub back-append :
      (d e : TimerEntry Callback) (xs : List (TimerEntry Callback)) → back d (xs ++ e ∷ []) ≡ e
  unfolding back
  back-append d e [] = refl
  back-append d e (x ∷ xs) = back-append x e xs

  pub pop_back-append :
      (e : TimerEntry Callback) (xs : List (TimerEntry Callback)) → pop_back (xs ++ e ∷ []) ≡ xs
  unfolding pop_back
  pop_back-append e [] = refl
  pop_back-append e (x ∷ []) = refl
  pop_back-append e (x ∷ y ∷ ys) = ap (◌∷◌ x) (pop_back-append e (y ∷ ys))
