-- ===== src/Core/Gateway/Collecting.antt =====
-- The backends of all routes, each once: `collect_all_backends` of src/core/gateway.cpp.
use api_gateway.Prelude.Int.{pos, negsuc, ℤ}
use api_gateway.Prelude.{
  text_less, ◌==◌, ltb, refl, text_eq_iff, [], arith, if◌then◌else◌, ◌&&◌, ◌++◌, ◌||◌, ◌↔◌, Bool,
  false, true, ◌∷◌, Bytes, List, text_eq, ◌≡◌,
}
use api_gateway.Prelude.Sorting.{Sorting}
use api_gateway.Core.Config.{Backend, Route}

-- `a < b` on `int`.
unfoldable pub int_less : ℤ → ℤ → Bool
int_less (pos m) (pos n) = ltb m n
int_less (pos m) (negsuc n) = false
int_less (negsuc m) (pos n) = true
int_less (negsuc m) (negsuc n) = ltb n m

unfoldable pub int_eq : ℤ → ℤ → Bool
int_eq (pos m) (pos n) = m == n
int_eq (pos m) (negsuc n) = false
int_eq (negsuc m) (pos n) = false
int_eq (negsuc m) (negsuc n) = m == n

-- The order that the backends are sorted by.
unfoldable pub backend_less : Backend → Backend → Bool
unfolding text_less int_less text_eq
backend_less a b = text_less a.host b.host || (text_eq a.host b.host && int_less a.port b.port)

unfoldable pub same_backend : Backend → Backend → Bool
unfolding text_eq int_eq
same_backend a b = text_eq a.host b.host && int_eq a.port b.port

unfoldable pub all_backends : List Route → List Backend
all_backends [] = []
all_backends (r ∷ rs) = r.backends ++ all_backends rs

-- `std::unique`, behind an element that it has kept.
unfoldable pub unique_after : Backend → List Backend → List Backend
unfolding same_backend
unique_after x [] = []
unique_after x (y ∷ ys) = if same_backend x y then unique_after x ys else y ∷ unique_after y ys

unfoldable pub unique : List Backend → List Backend
unfolding unique_after
unique [] = []
unique (x ∷ xs) = x ∷ unique_after x xs

module _ (s : Sorting backend_less) where
  unfoldable pub collect_all_backends : List Route → List Backend
  unfolding all_backends unique
  collect_all_backends routes = unique (s.sort (all_backends routes))

pub text_less_total : (a b : Bytes) → text_less a b ≡ false → text_less b a ≡ false → a ≡ b
unfolding text_less
text_less_total [] [] h k = refl
text_less_total [] (d ∷ ds) h k = cc
text_less_total (c ∷ cs) [] h k = cc
text_less_total (c ∷ cs) (d ∷ ds) h k = ground (arith, text_less_total cs ds)

int_less_total : (a b : ℤ) → int_less a b ≡ false → int_less b a ≡ false → a ≡ b
unfolding int_less
int_less_total (pos m) (pos n) h k = ground arith
int_less_total (pos m) (negsuc n) h k = cc
int_less_total (negsuc m) (pos n) h k = cc
int_less_total (negsuc m) (negsuc n) h k = ground arith

int_eq_iff : (a b : ℤ) → (int_eq a b ≡ true) ↔ (a ≡ b)
unfolding int_eq
int_eq_iff (pos m) (pos n) = ground arith
int_eq_iff (pos m) (negsuc n) = ground arith
int_eq_iff (negsuc m) (pos n) = ground arith
int_eq_iff (negsuc m) (negsuc n) = ground arith

pub same_backend_iff : (a b : Backend) → (same_backend a b ≡ true) ↔ (a ≡ b)
unfolding same_backend
same_backend_iff a b = ground (arith, text_eq_iff a.host b.host, int_eq_iff a.port b.port)

pub backend_less_total :
    (a b : Backend) → backend_less a b ≡ false → backend_less b a ≡ false → a ≡ b
unfolding backend_less
backend_less_total a b h k = ground (
  arith,
  text_less_total a.host b.host,
  int_less_total a.port b.port,
  text_eq_iff a.host b.host,
  text_eq_iff b.host a.host,
)
