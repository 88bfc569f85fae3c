-- ===== src/Monitor/Stats/Tests.antt =====
-- Runs of the statistics.
use api_gateway.Prelude.{◌≡◌, List, [], ◌∷◌, bytes}
use api_gateway.Prelude.Int.{pos}
use api_gateway.Monitor.Stats.{new_stats, global_snapshot}
use api_gateway.Monitor.Stats.Totals.{
  Event, answered, succeeded, erred, record_all, count, snapshot-count,
}

abbrev events : List Event
events =
    answered (bytes "/a") (pos 7)
    ∷ succeeded (bytes "/a")
    ∷ answered (bytes "/b") (pos 9)
    ∷ erred (bytes "/b")
    ∷ []

snapshot-count_example :
    ((global_snapshot (record_all events new_stats)).total_requests ≡ 2)
    × (((global_snapshot (record_all events new_stats)).total_success ≡ 1)
        × ((global_snapshot (record_all events new_stats)).total_errors ≡ 1))
unfolding count
snapshot-count_example = snapshot-count events
