-- ===== src/Prelude/Sorting.antt =====
-- Sorting: what `std::sort` promises, and a sorting by insertion that keeps the promises.
use mathlib.Core.Path.{◌≡◌}
use mathlib.Core.Logic.{inl, inr}
use mathlib.Core.Bool.{Bool, true, false}
use mathlib.Core.List.{List, [], ◌∷◌, Perm}
use mathlib.Core.List.Perm
use native.Mathlib.Omega.{arith}
use api_gateway.Prelude.Lists.{All}
use api_gateway.Prelude.Tests.{if◌then◌else◌, Bool-cases}

module _ {ℓ} {A : Type ℓ} (less : A → A → Bool) where
  abbrev pub IsOrdered : List A → Type 0
  IsOrdered [] = Unit {0}
  IsOrdered (x ∷ xs) = All (λ y. less y x ≡ false) xs × IsOrdered xs

  -- The same elements, with none before one that it goes before. The order of equal elements is
  -- left open.
  pub record Sorting : Type ℓ where
    pub sort : List A → List A
    pub sort_perm : (xs : List A) → Perm (sort xs) xs
    pub sort_ordered : (xs : List A) → IsOrdered (sort xs)

  unfoldable pub insert_sorted : A → List A → List A
  insert_sorted r [] = r ∷ []
  insert_sorted r (x ∷ xs) = if less x r then x ∷ insert_sorted r xs else r ∷ x ∷ xs

  unfoldable pub insertion_sort : List A → List A
  unfolding insert_sorted
  insertion_sort [] = []
  insertion_sort (r ∷ rs) = insert_sorted r (insertion_sort rs)

  insert_sorted-perm : (r : A) (xs : List A) → Perm (insert_sorted r xs) (r ∷ xs)
  unfolding insert_sorted
  insert_sorted-perm r [] = Perm.refl (r ∷ [])
  insert_sorted-perm r (x ∷ xs) = elim (Bool-cases (less x r)) [
    | inl h ↦ rw h (Perm.trans (Perm.cons x (insert_sorted-perm r xs)) (Perm.swap r x xs))
    | inr h ↦ rw h (Perm.refl (r ∷ x ∷ xs))
  ]

  pub insertion_sort-perm : (rs : List A) → Perm (insertion_sort rs) rs
  unfolding insertion_sort
  insertion_sort-perm [] = Perm.refl []
  insertion_sort-perm (r ∷ rs) =
      Perm.trans (insert_sorted-perm r (insertion_sort rs)) (Perm.cons r (insertion_sort-perm rs))

module _ {ℓ} {A : Type ℓ} (less : A → A → Bool)
    (asym : (a b : A) → less a b ≡ true → less b a ≡ false)
    (not_before_trans : (a b c : A) → less a b ≡ false → less b c ≡ false → less a c ≡ false) where
  All-not_before :
      (a b : A) (xs : List A)
      → less a b ≡ false
      → All (λ y. less y a ≡ false) xs
      → All (λ y. less y b ≡ false) xs
  All-not_before a b [] h k = tt
  All-not_before a b (x ∷ xs) h k = (not_before_trans x a b k.0 h, All-not_before a b xs h k.1)

  All-insert_sorted :
      (r z : A) (xs : List A)
      → less r z ≡ false
      → All (λ y. less y z ≡ false) xs
      → All (λ y. less y z ≡ false) (insert_sorted less r xs)
  unfolding insert_sorted
  All-insert_sorted r z [] h k = (h, tt)
  All-insert_sorted r z (x ∷ xs) h k = ground (arith, All-insert_sorted r z xs h)

  insert_sorted-IsOrdered :
      (r : A) (xs : List A) → IsOrdered less xs → IsOrdered less (insert_sorted less r xs)
  unfolding insert_sorted
  insert_sorted-IsOrdered r [] o = (tt, tt)
  insert_sorted-IsOrdered r (x ∷ xs) o = elim (Bool-cases (less x r)) [
    | inl h ↦ rw h (All-insert_sorted r x xs (asym x r h) o.0, insert_sorted-IsOrdered r xs o.1)
    | inr h ↦ rw h ((h, All-not_before x r xs h o.0), o)
  ]

  pub insertion_sort-IsOrdered : (rs : List A) → IsOrdered less (insertion_sort less rs)
  unfolding insertion_sort
  insertion_sort-IsOrdered [] = tt
  insertion_sort-IsOrdered (r ∷ rs) =
      insert_sorted-IsOrdered r (insertion_sort less rs) (insertion_sort-IsOrdered rs)

  abbrev pub insertion : Sorting less
  insertion = record {
    sort = insertion_sort less;
    sort_perm = insertion_sort-perm less;
    sort_ordered = insertion_sort-IsOrdered;
  }
