-- ===== src/Prelude/Decimal.antt =====
-- `std::to_string` and `"%d"`: decimal digits of an integer.
use Prim.Native.Nat.{ℕ, zero, suc, ◌+◌, ◌/◌, ◌%◌}
use mathlib.Core.List.{[], ◌∷◌}
use api_gateway.Prelude.Tests.{ltb, if◌then◌else◌}
use api_gateway.Prelude.Strings.{Bytes}
use api_gateway.Prelude.Int.{ℤ, pos, negsuc}

-- The digits of a number, in front of those already written. A number has at most as many digits
-- as its value plus one.
unfoldable pub digits_onto : ℕ → ℕ → Bytes → Bytes
digits_onto zero n acc = acc
digits_onto (suc fuel) n acc =
    let later = digits_onto fuel (n / 10) ((b'0' + n % 10) ∷ acc) in
    if ltb n 10 then (b'0' + n) ∷ acc else later

unfoldable pub decimal : ℕ → Bytes
unfolding digits_onto
decimal n = digits_onto (suc n) n []

unfoldable pub to_string : ℤ → Bytes
unfolding decimal
to_string (pos n) = decimal n
to_string (negsuc n) = b'-' ∷ decimal (suc n)
