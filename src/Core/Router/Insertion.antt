-- ===== src/Core/Router/Insertion.antt =====
-- A sorting of the routes: insertion, one route at a time.
use api_gateway.Prelude.{◌≡◌, true, false, arith}
use api_gateway.Prelude.Sorting.{Sorting, insertion}
use api_gateway.Core.Config.{Route}
use api_gateway.Core.Router.{goes_before}

pub goes_before_asym : (a b : Route) → goes_before a b ≡ true → goes_before b a ≡ false
unfolding goes_before
goes_before_asym a b h = ground arith

pub not_before_trans :
    (a b c : Route) → goes_before a b ≡ false → goes_before b c ≡ false → goes_before a c ≡ false
unfolding goes_before
not_before_trans a b c h k = ground arith

abbrev pub route_insertion : Sorting goes_before
route_insertion = insertion goes_before goes_before_asym not_before_trans
