-- ===== src/Prelude/Perms.antt =====
-- Lists up to their order: what holds of every element, and sums.
use Prim.Native.Nat.{ℕ, ◌+◌}
use mathlib.Core.Path.{◌≡◌, refl, sym, subst}
use mathlib.Core.Logic.Or
use mathlib.Core.List.{
  List, [], ◌∷◌, ◌++◌, Perm, Mem, foldr, mem-cons, mem-cons_self, mem-cons_of_mem, not-mem-nil,
}
use mathlib.Core.List.Perm
use mathlib.Core.HLevel.{hedberg}
use native.Mathlib.Omega.{arith}
use native.Mathlib.Decide.{ℕ_discrete}
use api_gateway.Prelude.Lists.{All}

pub All-mono {ℓ κ μ} :
    {A : Type ℓ} {P : A → Type κ} {Q : A → Type μ}
    → ((a : A) → P a → Q a)
    → (xs : List A) → All P xs
    → All Q xs
All-mono f [] h = tt
All-mono f (x ∷ xs) h = (f x h.0, All-mono f xs h.1)

module _ {ℓ κ} {A : Type ℓ} {P : A → Type κ} (prop : (a : A) → IsProp (P a)) where
  pub All-Mem : (xs : List A) {a : A} → All P xs → Mem a xs → P a
  All-Mem [] h m = absurd (not-mem-nil m)
  All-Mem (x ∷ xs) {a} h m =
      Or.elim (prop a) (mem-cons.0 m) (λ e. subst P (sym e) h.0) (All-Mem xs h.1)

  pub All-of_Mem : (xs : List A) → ((a : A) → Mem a xs → P a) → All P xs
  All-of_Mem [] h = tt
  All-of_Mem (x ∷ xs) h = (h x mem-cons_self, All-of_Mem xs λ a m. h a (mem-cons_of_mem x m))

  pub All-Perm : {xs ys : List A} → Perm xs ys → All P xs → All P ys
  All-Perm {xs} {ys} p h = All-of_Mem ys λ a m. All-Mem xs h ((Perm.mem_iff p).1 m)

module _ {ℓ κ} {A : Type ℓ} (P : A → Type κ) where
  pub All-append : (xs ys : List A) → All P xs → All P ys → All P (xs ++ ys)
  All-append [] ys h k = k
  All-append (x ∷ xs) ys h k = (h.0, All-append xs ys h.1 k)

module _ {ℓ} {A : Type ℓ} (weight : A → ℕ) where
  unfoldable pub sum : List A → ℕ
  sum [] = 0
  sum (x ∷ xs) = weight x + sum xs

  sum-foldr : (xs : List A) → sum xs ≡ foldr (λ x n. weight x + n) 0 xs
  unfolding sum
  sum-foldr [] = refl
  sum-foldr (x ∷ xs) = omega (arith, sum-foldr xs)

  pub sum-Perm : {xs ys : List A} → Perm xs ys → sum xs ≡ sum ys
  sum-Perm {xs} {ys} p = omega (
    arith,
    sum-foldr xs,
    sum-foldr ys,
    Perm.foldr-eq (hedberg ℕ_discrete) (λ x n. weight x + n) (λ a b n. omega arith) p 0,
  )
