-- ===== src/Core/Router.antt =====
-- The router, src/core/router.cpp.
pub mod Longest
mod Insertion
mod Tests
use api_gateway.Prelude.Sorting.{Sorting}
use api_gateway.Prelude.{
  ℕ, suc, ◌≡◌, Bool, true, false, not, ◌&&◌, ◌||◌, Option, none, some, List, [], ◌∷◌, Bytes, length,
  ltb, leb, ◌==◌, if◌then◌else◌, starts_with, get_elem?, byte_is,
}
use api_gateway.Core.Config.{Backend, Route}

-- `std::count(s.begin(), s.end(), '/')`
unfoldable pub count_slashes : Bytes → ℕ
count_slashes [] = 0
count_slashes (c ∷ cs) = if c == b'/' then suc (count_slashes cs) else count_slashes cs

-- The order of `sort_routes`: more slashes first, then the longer prefix.
unfoldable pub goes_before : Route → Route → Bool
unfolding count_slashes
goes_before a b =
    if not (count_slashes a.prefix == count_slashes b.prefix)
    then ltb (count_slashes b.prefix) (count_slashes a.prefix)
    else ltb (length b.prefix) (length a.prefix)

-- The test of `match` on one route.
unfoldable pub is_match : Bytes → Route → Bool
is_match path r =
    (leb (length r.prefix) (length path) && starts_with r.prefix path)
    && (length r.prefix == length path || byte_is (get_elem? path (length r.prefix)) b'/')

unfoldable pub first_match : Bytes → List Route → Option (List Backend)
first_match path [] = none
first_match path (r ∷ rs) = if is_match path r then some r.backends else first_match path rs

module _ (s : Sorting goes_before) where
  -- `Router(routes)` and `match(path)`.
  pub match_path : List Route → Bytes → Option (List Backend)
  match_path routes path = first_match path (s.sort routes)
