-- ===== src/Proxy/LoadBalancer/RoundRobin.antt =====
-- Round robin is fair.
use api_gateway.Prelude.{
  ℕ, zero, suc, ◌+◌, ◌-◌, ◌%◌, ◌^◌, ◌≤◌, ◌<◌, ◌≡◌, refl, sym, ap, ◌∙◌, List, [], ◌∷◌, ◌++◌, length,
  take, drop, take_all, length-drop, arith,
}
use mathlib.Core.Path.{ap₂}
use native.Mathlib.Nat.{mod-eq_of_lt, mod-lt}
use api_gateway.Core.Config.{Backend}
use api_gateway.Proxy.LoadBalancer.{
  LoadBalancer, round_robin, backend_at, select_round_robin, select,
}

-- The backends that a number of calls in a row select.
abbrev pub selections : ℕ → List Backend → LoadBalancer → List Backend
selections zero bs lb = []
selections (suc k) bs lb = (select 0 bs lb).1 ∷ selections k bs (select 0 bs lb).0

take-drop_at :
    (bs : List Backend) (j k : ℕ)
    → j < length bs
    → take (suc k) (drop j bs) ≡ backend_at bs j ∷ take k (drop (suc j) bs)
take-drop_at [] j k h = absurd (omega arith)
take-drop_at (b ∷ bs) zero k h = refl
take-drop_at (b ∷ bs) (suc j) k h = take-drop_at bs j k (omega arith)

mod_next : (c n j : ℕ) → c % n ≡ j → suc j < n → (c + 1) % n ≡ suc j
mod_next c n j e h = grind arith

mod_wrap : (c n : ℕ) → 0 < n → (c + (n - c % n)) % n ≡ 0
mod_wrap c n h = grind arith

abbrev advanced : ℕ → LoadBalancer → LoadBalancer
advanced k lb = record lb { rr_counter = lb.rr_counter + k }

module _ (b c : Backend) (bs : List Backend) where
  -- One selection, while the counter does not wrap.
  select_step :
      (lb : LoadBalancer)
      → lb.algo ≡ round_robin
      → lb.rr_counter + 1 < 2 ^ 64
      → select 0 (b ∷ c ∷ bs) lb
        ≡ (advanced 1 lb, backend_at (b ∷ c ∷ bs) (lb.rr_counter % length (b ∷ c ∷ bs)))
  unfolding select select_round_robin
  select_step lb a w = rw (a, mod-eq_of_lt w)

  -- From an index on, up to the end of the list.
  selections_run :
      (k j : ℕ) (lb : LoadBalancer)
      → lb.algo ≡ round_robin
      → lb.rr_counter + k < 2 ^ 64
      → lb.rr_counter % length (b ∷ c ∷ bs) ≡ j
      → j + k ≤ length (b ∷ c ∷ bs)
      → selections k (b ∷ c ∷ bs) lb ≡ take k (drop j (b ∷ c ∷ bs))
  selections_run zero j lb a w e h = refl
  selections_run (suc zero) j lb a w e h =
      rw (select_step lb a (omega arith), e) (sym (take-drop_at (b ∷ c ∷ bs) j 0 (omega arith)))
  selections_run (suc (suc k)) j lb a w e h =
      let rest =
        selections_run (suc k) (suc j) (advanced 1 lb) a (omega arith)
          (mod_next lb.rr_counter (length (b ∷ c ∷ bs)) j e (omega arith)) (omega arith) in
      ap₂ ◌∷◌ (ap (λ t. t.1) (select_step lb a (omega arith)) ∙ ap (backend_at (b ∷ c ∷ bs)) e)
        (ap (λ t. selections (suc k) (b ∷ c ∷ bs) t.0) (select_step lb a (omega arith)) ∙ rest)
      ∙ sym (take-drop_at (b ∷ c ∷ bs) j (suc k) (omega arith))

  selections-append :
      (m k : ℕ) (lb : LoadBalancer)
      → lb.algo ≡ round_robin
      → lb.rr_counter + m < 2 ^ 64
      → selections (m + k) (b ∷ c ∷ bs) lb
        ≡ selections m (b ∷ c ∷ bs) lb ++ selections k (b ∷ c ∷ bs) (advanced m lb)
  selections-append zero k lb a w =
      let e : lb.rr_counter + 0 ≡ lb.rr_counter = omega arith in
      let z : 0 + k ≡ k = omega arith in rw (z, e)
  selections-append (suc m) k lb a w =
      let e : lb.rr_counter + 1 + m ≡ lb.rr_counter + suc m = omega arith in
      let z : suc m + k ≡ suc (m + k) = omega arith in
      rw z (
        ap₂ ◌∷◌ refl (
          ap (λ t. selections (m + k) (b ∷ c ∷ bs) t.0) (select_step lb a (omega arith))
          ∙ selections-append m k (advanced 1 lb) a (omega arith)
          ∙ ap₂ ◌++◌
              (ap (λ t. selections m (b ∷ c ∷ bs) t.0) (sym (select_step lb a (omega arith))))
              (ap (λ x. selections k (b ∷ c ∷ bs) (record lb { rr_counter = x })) e)))

-- With round robin and at least two backends, as many selections in a row as there are backends
-- go once through the list from where the counter stands, as long as the counter does not wrap.
pub selections-rotation :
    (backends : List Backend) (lb : LoadBalancer)
    → 1 < length backends
    → lb.algo ≡ round_robin
    → lb.rr_counter + length backends < 2 ^ 64
    → selections (length backends) backends lb
      ≡ drop (lb.rr_counter % length backends) backends
        ++ take (lb.rr_counter % length backends) backends
selections-rotation [] lb h a w = absurd (omega arith)
selections-rotation (b ∷ []) lb h a w = absurd (omega arith)
selections-rotation (b ∷ c ∷ bs) lb h a w =
    let l = b ∷ c ∷ bs in
    let n : ℕ = length l in
    let j : ℕ = lb.rr_counter % length l in
    let less : lb.rr_counter % length l < length l = mod-lt lb.rr_counter (omega arith) in
    let split : length l ≡ (length l - j) + j = omega arith in
    let first =
      selections_run b c bs (length l - j) j lb a (omega arith) refl (omega arith)
      ∙ take_all (length l - j) (drop j l) (omega (arith, length-drop j l)) in
    let second =
      selections_run b c bs j 0 (advanced (length l - j) lb) a (omega arith)
        (mod_wrap lb.rr_counter (length l) (omega arith)) (omega arith) in
    ap (λ m. selections m l lb) split
    ∙ selections-append b c bs (length l - j) j lb a (omega arith)
    ∙ ap₂ ◌++◌ first second
