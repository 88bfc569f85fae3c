-- ===== src/Core/Gateway/Sorted.antt =====
-- A sorting of the backends, for `collect_all_backends` of src/core/gateway.cpp.
use api_gateway.Prelude.{text_less, [], refl, text_eq_iff, arith, ◌∷◌, false, true, Bytes, ◌≡◌}
use api_gateway.Prelude.Sorting.{Sorting, insertion}
use api_gateway.Prelude.Int.{ℤ, pos, negsuc}
use api_gateway.Core.Config.{Backend}
use api_gateway.Core.Gateway.Collecting.{int_less, backend_less, text_less_total}

text_asym : (a b : Bytes) → text_less a b ≡ true → text_less b a ≡ false
unfolding text_less
text_asym [] [] h = refl
text_asym [] (d ∷ ds) h = refl
text_asym (c ∷ cs) [] h = cc
text_asym (c ∷ cs) (d ∷ ds) h = ground (arith, text_asym cs ds)

text_trans : (a b c : Bytes) → text_less a b ≡ false → text_less b c ≡ false → text_less a c ≡ false
unfolding text_less
text_trans [] [] [] h k = refl
text_trans [] [] (e ∷ es) h k = cc
text_trans [] (d ∷ ds) c h k = cc
text_trans (c ∷ cs) [] [] h k = refl
text_trans (c ∷ cs) [] (e ∷ es) h k = cc
text_trans (c ∷ cs) (d ∷ ds) [] h k = refl
text_trans (c ∷ cs) (d ∷ ds) (e ∷ es) h k = ground (arith, text_trans cs ds es)

int_asym : (a b : ℤ) → int_less a b ≡ true → int_less b a ≡ false
unfolding int_less
int_asym (pos m) (pos n) h = ground arith
int_asym (pos m) (negsuc n) h = cc
int_asym (negsuc m) (pos n) h = refl
int_asym (negsuc m) (negsuc n) h = ground arith

int_trans : (a b c : ℤ) → int_less a b ≡ false → int_less b c ≡ false → int_less a c ≡ false
unfolding int_less
int_trans (pos l) (pos m) (pos n) h k = ground arith
int_trans (pos l) (pos m) (negsuc n) h k = refl
int_trans (pos l) (negsuc m) (pos n) h k = cc
int_trans (pos l) (negsuc m) (negsuc n) h k = refl
int_trans (negsuc l) (pos m) c h k = cc
int_trans (negsuc l) (negsuc m) (pos n) h k = cc
int_trans (negsuc l) (negsuc m) (negsuc n) h k = ground arith

text_irrefl : (a : Bytes) → text_less a a ≡ false
unfolding text_less
text_irrefl [] = refl
text_irrefl (c ∷ cs) = ground (arith, text_irrefl cs)

pub backend_asym : (a b : Backend) → backend_less a b ≡ true → backend_less b a ≡ false
unfolding backend_less
backend_asym a b h = ground (
  arith,
  text_asym a.host b.host,
  int_asym a.port b.port,
  text_eq_iff a.host b.host,
  text_eq_iff b.host a.host,
  text_irrefl a.host,
  text_irrefl b.host,
)

pub backend_trans :
    (a b c : Backend)
    → backend_less a b ≡ false
    → backend_less b c ≡ false
    → backend_less a c ≡ false
unfolding backend_less
backend_trans a b c h k = ground (
  arith,
  text_trans a.host b.host c.host,
  int_trans a.port b.port c.port,
  text_eq_iff a.host b.host,
  text_eq_iff b.host c.host,
  text_eq_iff a.host c.host,
  text_less_total a.host b.host,
  text_less_total b.host c.host,
  text_asym a.host c.host,
)

abbrev pub backend_insertion : Sorting backend_less
backend_insertion = insertion backend_less backend_asym backend_trans
