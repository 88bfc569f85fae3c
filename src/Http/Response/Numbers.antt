-- ===== src/Http/Response/Numbers.antt =====
-- Printed numbers are read back, and have no carriage return.
use api_gateway.Prelude.Decimal.{to_string}
use api_gateway.Prelude.Int.{ℤ, pos, negsuc}
use api_gateway.Prelude.{find, starts_with, some, length}
use api_gateway.Prelude.{
  ℕ, zero, suc, ◌+◌, ◌/◌, ◌%◌, ◌<◌, ◌≡◌, refl, ap, ◌∙◌, Bool, true, false, not, ◌&&◌, ◌==◌, [], ◌∷◌,
  ◌++◌, Bytes, ltb, Bool-cases, inl, inr, arith,
}
use api_gateway.Prelude.Decimal.{digits_onto, decimal, to_string}
use api_gateway.Http.Text.{digits_value, take_while, is_digit}

-- Whether all bytes are digits, and whether none is a carriage return.
unfoldable pub all_digits : Bytes → Bool
unfolding is_digit
all_digits [] = true
all_digits (c ∷ cs) = is_digit c && all_digits cs

unfoldable pub is_plain : Bytes → Bool
is_plain [] = true
is_plain (c ∷ cs) = not (c == 13) && is_plain cs

digits_onto-value :
    (fuel n : ℕ) (acc : Bytes)
    → n < fuel
    → digits_value 0 (digits_onto fuel n acc) ≡ digits_value n acc
unfolding digits_onto digits_value
digits_onto-value zero n acc h = absurd (omega arith)
digits_onto-value (suc fuel) n acc h = elim (Bool-cases (ltb n 10)) [
  | inl small ↦ rw (small, digits_onto) (ap (λ k. digits_value k acc) (omega arith))
  | inr big ↦
      rw (big, digits_onto)
        (digits_onto-value fuel (n / 10) ((b'0' + n % 10) ∷ acc) (ground arith)
          ∙ ap (λ k. digits_value k acc) (omega arith))
]

digits_onto-all_digits :
    (fuel n : ℕ) (acc : Bytes) → all_digits acc ≡ true → all_digits (digits_onto fuel n acc) ≡ true
unfolding digits_onto all_digits is_digit
digits_onto-all_digits zero n acc h = h
digits_onto-all_digits (suc fuel) n acc h = elim (Bool-cases (ltb n 10)) [
  | inl small ↦ rw (small, digits_onto) (ground (arith, h))
  | inr big ↦
      rw (big, digits_onto)
        (digits_onto-all_digits fuel (n / 10) ((b'0' + n % 10) ∷ acc) (ground (arith, h)))
]

pub decimal-value : (n : ℕ) → digits_value 0 (decimal n) ≡ n
unfolding decimal digits_value
decimal-value n = digits_onto-value (suc n) n [] (omega arith)

pub decimal-all_digits : (n : ℕ) → all_digits (decimal n) ≡ true
unfolding decimal all_digits
decimal-all_digits n = digits_onto-all_digits (suc n) n [] refl

pub all_digits-is_plain : (s : Bytes) → all_digits s ≡ true → is_plain s ≡ true
unfolding all_digits is_plain is_digit
all_digits-is_plain [] h = refl
all_digits-is_plain (c ∷ s) h = ground (arith, all_digits-is_plain s)

pub take_while-all_digits : (s : Bytes) → all_digits s ≡ true → take_while is_digit s ≡ s
unfolding all_digits take_while
take_while-all_digits [] h = refl
take_while-all_digits (c ∷ s) h = elim (Bool-cases (is_digit c)) [
  | inl digit ↦ rw digit (ap (◌∷◌ c) (take_while-all_digits s (ground (arith, h))))
  | inr other ↦ ground (arith, h)
]

pub to_string-is_plain : (n : ℤ) → is_plain (to_string n) ≡ true
unfolding to_string is_plain
to_string-is_plain (pos n) = all_digits-is_plain (decimal n) (decimal-all_digits n)
to_string-is_plain (negsuc n) = all_digits-is_plain (decimal (suc n)) (decimal-all_digits (suc n))

pub append-is_plain :
    (s t : Bytes) → is_plain s ≡ true → is_plain t ≡ true → is_plain (s ++ t) ≡ true
unfolding is_plain
append-is_plain [] t h k = k
append-is_plain (c ∷ s) t h k = ground (arith, append-is_plain s t)

-- A search for a text that begins with a carriage return passes over a text without one.
pub find-plain :
    (l p s : Bytes) (i : ℕ)
    → is_plain l ≡ true
    → find (13 ∷ p) s ≡ some i
    → find (13 ∷ p) (l ++ s) ≡ some (length l + i)
unfolding is_plain find starts_with
find-plain [] p s i h e = e ∙ ap some (omega arith)
find-plain (c ∷ l) p s i h e = elim (Bool-cases (c == 13)) [
  | inl return ↦ ground (arith, h)
  | inr other ↦ ground (arith, h, find-plain l p s i, e)
]

-- It passes over a line's end where the text does not begin.
pub find-line :
    (p s : Bytes) (i : ℕ)
    → starts_with p (10 ∷ s) ≡ false
    → find (13 ∷ p) s ≡ some i
    → find (13 ∷ p) (13 ∷ 10 ∷ s) ≡ some (2 + i)
unfolding find starts_with
find-line p s i h e = ground (arith, h, e)
