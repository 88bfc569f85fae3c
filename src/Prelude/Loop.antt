-- ===== src/Prelude/Loop.antt =====
-- A `while` loop by fuel: a round either ends the loop or asks for another round.
use Prim.Native.Nat.{ℕ, zero, suc, ◌<◌}
use mathlib.Core.Path.{◌≡◌, refl, ◌∙◌, sym, subst, ap}
use mathlib.Core.Logic.{◌⊎◌, inl, inr}
use mathlib.Core.Option.{Option, none, some}
use native.Mathlib.Omega.{arith}

pub data Round {ℓ} (S : Type ℓ) : Type ℓ where
  done : S → Round S
  more : S → Round S

abbrev pub after_round {ℓ} : {S : Type ℓ} → Round S → S
after_round (done s) = s
after_round (more s) = s

-- `none` means that the fuel ran out before a round ended the loop.
unfoldable pub loop {ℓ} : {S : Type ℓ} → ℕ → (S → Round S) → S → Option S
loop zero round s = none
loop (suc fuel) round s = elim (round s) [ done t ↦ some t | more t ↦ loop fuel round t ]

pub Round-cases {ℓ} :
    {S : Type ℓ} (r : Round S) → ((t : S) × (r ≡ done t)) ⊎ ((t : S) × (r ≡ more t))
Round-cases (done t) = inl (t, refl)
Round-cases (more t) = inr (t, refl)

-- One step of the loop.
pub loop-done {ℓ} :
    {S : Type ℓ} (round : S → Round S) (fuel : ℕ) (s t : S)
    → round s ≡ done t
    → loop (suc fuel) round s ≡ some t
unfolding loop
loop-done round fuel s t e = rw (e, loop)

pub loop-more {ℓ} :
    {S : Type ℓ} (round : S → Round S) (fuel : ℕ) (s t : S)
    → round s ≡ more t
    → loop (suc fuel) round s ≡ loop fuel round t
unfolding loop
loop-more round fuel s t e = rw (e, loop)

-- An invariant of every round holds after the loop.
pub loop_inv {ℓ κ} :
    {S : Type ℓ} (P : S → Type κ) (round : S → Round S)
    → ((s : S) → P s → P (after_round (round s)))
    → (fuel : ℕ) (s t : S) → loop fuel round s ≡ some t
    → P s
    → P t
unfolding loop
loop_inv P round keep zero s t e h = cc
loop_inv P round keep (suc fuel) s t e h = elim (Round-cases (round s)) [
  | inl (u, q) ↦
      let same : u ≡ t = cc (loop-done round fuel s u q) in subst P same (rw q at (keep s h))
  | inr (u, q) ↦
      loop_inv P round keep fuel u t (sym (loop-more round fuel s u q) ∙ e) (rw q at (keep s h))
]

-- A loop whose rounds lower a measure ends, if the fuel is above the measure.
pub loop_total {ℓ} :
    {S : Type ℓ} (measure : S → ℕ) (round : S → Round S)
    → ((s t : S) → round s ≡ more t → measure t < measure s)
    → (fuel : ℕ) (s : S) → measure s < fuel
    → (t : S) × (loop fuel round s ≡ some t)
unfolding loop
loop_total measure round lower zero s h = absurd (omega arith)
loop_total measure round lower (suc fuel) s h = elim (Round-cases (round s)) [
  | inl (u, q) ↦ (u, loop-done round fuel s u q)
  | inr (u, q) ↦
      let less = lower s u q in
      let (t, e) = loop_total measure round lower fuel u (omega arith) in
      (t, loop-more round fuel s u q ∙ e)
]

-- A round that changes nothing and asks for another one never ends.
pub loop_stuck {ℓ} :
    {S : Type ℓ} (round : S → Round S) (s : S)
    → round s ≡ more s
    → (fuel : ℕ) → loop fuel round s ≡ none
unfolding loop
loop_stuck round s e zero = refl
loop_stuck round s e (suc fuel) = loop-more round fuel s s e ∙ loop_stuck round s e fuel

loop_never {ℓ} :
    {S : Type ℓ} (round : S → Round S) (s u : S)
    → round s ≡ more u
    → ((fuel : ℕ) → loop fuel round u ≡ none)
    → (fuel : ℕ) → loop fuel round s ≡ none
unfolding loop
loop_never round s u q never zero = refl
loop_never round s u q never (suc fuel) = loop-more round fuel s u q ∙ never fuel

-- What a loop returns was returned by its last round.
pub loop_last {ℓ} :
    {S : Type ℓ} (round : S → Round S) (fuel : ℕ) (s t : S)
    → loop fuel round s ≡ some t
    → (r : S) × (round r ≡ done t)
unfolding loop
loop_last round zero s t e = cc
loop_last round (suc fuel) s t e = elim (Round-cases (round s)) [
  | inl (u, q) ↦ let same : u ≡ t = cc (loop-done round fuel s u q) in (s, q ∙ ap done same)
  | inr (u, q) ↦ loop_last round fuel u t (sym (loop-more round fuel s u q) ∙ e)
]

-- More fuel gives the same result.
pub loop-suc {ℓ} :
    {S : Type ℓ} (round : S → Round S) (fuel : ℕ) (s t : S)
    → loop fuel round s ≡ some t
    → loop (suc fuel) round s ≡ some t
unfolding loop
loop-suc round zero s t e = cc
loop-suc round (suc fuel) s t e = elim (Round-cases (round s)) [
  | inl (u, q) ↦ cc (loop-done round fuel s u q, loop-done round (suc fuel) s u q)
  | inr (u, q) ↦
      let rest = loop-suc round fuel u t (sym (loop-more round fuel s u q) ∙ e) in
      loop-more round (suc fuel) s u q ∙ rest
]

-- A loop whose rounds lower a measure or change nothing ends with fuel above the measure, or never.
pub loop_ends_or_not {ℓ} :
    {S : Type ℓ} (measure : S → ℕ) (round : S → Round S)
    → ((s t : S) → round s ≡ more t → (measure t < measure s) ⊎ (t ≡ s))
    → (n : ℕ) (s : S) → measure s < n
    → ((t : S) × (loop n round s ≡ some t)) ⊎ ((fuel : ℕ) → loop fuel round s ≡ none)
unfolding loop
loop_ends_or_not measure round step zero s h = absurd (omega arith)
loop_ends_or_not measure round step (suc n) s h = elim (Round-cases (round s)) [
  | inl (u, q) ↦ inl (u, loop-done round n s u q)
  | inr (u, q) ↦ elim (step s u q) [
    | inr same ↦ inr (loop_stuck round s (q ∙ ap more same))
    | inl less ↦ elim (loop_ends_or_not measure round step n u (omega arith)) [
      | inl (t, e) ↦ inl (t, loop-more round n s u q ∙ e)
      | inr never ↦ inr (loop_never round s u q never)
    ]
  ]
]
