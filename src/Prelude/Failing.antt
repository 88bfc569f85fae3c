-- ===== src/Prelude/Failing.antt =====
-- What a routine does that may fail or not return: `hanging` says that its fuel ran out.
use Prim.Native.Nat.{ℕ, zero, suc}
use mathlib.Core.Path.{◌≡◌, refl}
use mathlib.Core.Bool.{Bool, true, false}
use mathlib.Core.List.{List}

pub data Outcome {ℓ} (A : Type ℓ) : Type ℓ where
  returned : A → Outcome A
  failed : List ℕ → Outcome A
  hanging : Outcome A

abbrev pub and_then {ℓ κ} : {A : Type ℓ} {B : Type κ} → Outcome A → (A → Outcome B) → Outcome B
and_then (returned a) f = f a
and_then (failed message) f = failed message
and_then hanging f = hanging

-- `while (test) body`
unfoldable pub while_loop {ℓ} : {S : Type ℓ} → ℕ → (S → Bool) → (S → Outcome S) → S → Outcome S
while_loop zero test body s = hanging
while_loop (suc fuel) test body s = elim (test s) [
  | true ↦ and_then (body s) (while_loop fuel test body)
  | false ↦ returned s
]

-- A body that returns the very state it got, while the test holds, never lets the loop end.
pub while_loop_stuck {ℓ} :
    {S : Type ℓ} (test : S → Bool) (body : S → Outcome S) (s : S)
    → test s ≡ true
    → body s ≡ returned s
    → (fuel : ℕ) → while_loop fuel test body s ≡ hanging
unfolding while_loop
while_loop_stuck test body s t b zero = refl
while_loop_stuck test body s t b (suc fuel) =
    rw (t, while_loop) (rw b (while_loop_stuck test body s t b fuel))
