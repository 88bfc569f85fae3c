-- ===== src/Core/Router/Tests.antt =====
-- Runs of the router, and its theorems at a table of three routes.
use api_gateway.Prelude.{◌≡◌, refl, some, none, List, [], ◌∷◌, bytes, starts_with}
use api_gateway.Prelude.Int.{pos}
use api_gateway.Core.Config.{Backend, Route}
use api_gateway.Core.Router.{goes_before, is_match, first_match, match_path}
use api_gateway.Core.Router.Longest.{IsLongest, match_path-IsLongest}
use api_gateway.Core.Router.Insertion.{route_insertion}
use api_gateway.Prelude.Sorting.{insertion_sort}

abbrev server : Backend
server = record { host = bytes "h"; port = pos 1 }

abbrev api : Route
api = record { prefix = bytes "/api"; backends = [] }

abbrev user : Route
user = record { prefix = bytes "/api/user"; backends = server ∷ [] }

abbrev table : List Route
table = api ∷ user ∷ []

user_profile : match_path route_insertion table (bytes "/api/user/profile") ≡ some (server ∷ [])
unfolding match_path first_match is_match starts_with insertion_sort goes_before
user_profile = refl

users_not_user : match_path route_insertion table (bytes "/other") ≡ none
unfolding match_path first_match is_match starts_with insertion_sort goes_before
users_not_user = refl

match_path-IsLongest_example :
    (r : Route) × (r.backends ≡ server ∷ []) × IsLongest (bytes "/api/user/profile") table r
match_path-IsLongest_example =
    match_path-IsLongest route_insertion table (bytes "/api/user/profile") (server ∷ [])
      user_profile
