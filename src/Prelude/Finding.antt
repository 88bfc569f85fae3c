-- ===== src/Prelude/Finding.antt =====
-- Where a text stands in another one, when more text follows.
use api_gateway.Prelude.{
  ℕ, ◌+◌, ◌≤◌, ◌≡◌, refl, true, none, some, [], ◌∷◌, ◌++◌, Bytes, length, starts_with, find,
  Bool-cases, Option-cases, inl, inr, arith,
}

starts_with-le : (p s : Bytes) → starts_with p s ≡ true → length p ≤ length s
unfolding starts_with
starts_with-le [] s h = omega arith
starts_with-le (c ∷ p) [] h = cc
starts_with-le (c ∷ p) (d ∷ s) h = ground (arith, starts_with-le p s)

-- A beginning of the shorter text is one of the longer text.
starts_with-more : (p s t : Bytes) → starts_with p s ≡ true → starts_with p (s ++ t) ≡ true
unfolding starts_with
starts_with-more [] s t h = refl
starts_with-more (c ∷ p) [] t h = cc
starts_with-more (c ∷ p) (d ∷ s) t h = ground (arith, starts_with-more p s t)

-- A beginning that fits into the shorter text is one of it.
starts_with-less :
    (p s t : Bytes) → length p ≤ length s → starts_with p (s ++ t) ≡ true → starts_with p s ≡ true
unfolding starts_with
starts_with-less [] s t l h = refl
starts_with-less (c ∷ p) [] t l h = absurd (omega arith)
starts_with-less (c ∷ p) (d ∷ s) t l h = ground (arith, starts_with-less p s t)

pub find-le : (p s : Bytes) (i : ℕ) → find p s ≡ some i → i + length p ≤ length s
unfolding find
find-le [] [] i h = ground arith
find-le (c ∷ p) [] i h = cc
find-le p (d ∷ s) i h = elim (Option-cases (find p s)) [
  | inl q ↦ ground (arith, starts_with-le p (d ∷ s))
  | inr (j, q) ↦ ground (arith, starts_with-le p (d ∷ s), find-le p s j q)
]

-- What has been found stays where it is when more text arrives.
pub find-append : (p s t : Bytes) (i : ℕ) → find p s ≡ some i → find p (s ++ t) ≡ some i
unfolding find starts_with
find-append [] [] [] i h = h
find-append [] [] (c ∷ t) i h = h
find-append (c ∷ p) [] t i h = cc
find-append p (d ∷ s) t i h = elim (Bool-cases (starts_with p (d ∷ s))) [
  | inl here ↦ ground (arith, starts_with-more p (d ∷ s) t here)
  | inr later ↦ elim (Option-cases (find p s)) [
    | inl q ↦ ground arith
    | inr (j, q) ↦
        ground (arith, find-append p s t j q, find-le p s j q, starts_with-less p (d ∷ s) t)
  ]
]

-- What is not in a text is in no beginning of it.
pub find-append-none : (p s t : Bytes) → find p (s ++ t) ≡ none → find p s ≡ none
find-append-none p s t h = elim (Option-cases (find p s)) [
  | inl q ↦ q
  | inr (i, q) ↦ absurd (cc (find-append p s t i q, h))
]
