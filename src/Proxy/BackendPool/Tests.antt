-- ===== src/Proxy/BackendPool/Tests.antt =====
-- Runs of the connection pool.
use api_gateway.Prelude.Decimal.{to_string}
use api_gateway.Prelude.{text_eq}
use api_gateway.Prelude.Map.{lookup, insert}
use api_gateway.Prelude.{◌+◌, ◌≤◌, ◌≡◌, refl, true, [], ◌∷◌, bytes, List}
use api_gateway.Prelude.Int.{pos}
use api_gateway.Core.Config.{Backend}
use api_gateway.Proxy.LoadBalancer.{make_key}
use api_gateway.Proxy.BackendConnection.{Dial, in_progress, nothing_yet}
use api_gateway.Proxy.BackendPool.{Look}
use api_gateway.Proxy.BackendPool.Lending.{times, idle_times}
use api_gateway.Proxy.BackendPool.Sharing.{
  Action, reserving, connecting_new, releasing, cleaning, act_all, new_world, act_all-times,
}

abbrev backend : Backend
backend = record { host = bytes "h"; port = pos 80 }

abbrev sound : Look
sound i = (true, nothing_yet)

abbrev dialled : Dial
dialled = record {
  fd = pos 5;
  address_ok = true;
  connecting = in_progress;
  writable = true;
  without_error = true;
}

-- Two callers get a new connection each; one gives its own back and takes it again.
abbrev day : List Action
day =
    reserving sound 1 (make_key backend)
    ∷ reserving sound 1 (make_key backend)
    ∷ connecting_new 1 dialled backend
    ∷ connecting_new 2 dialled backend
    ∷ releasing sound backend 1
    ∷ reserving sound 3 (make_key backend)
    ∷ cleaning 4
    ∷ []

held : times 0 (act_all day (new_world 8 60)).lent ≡ 1
unfolding times act_all lookup insert text_eq make_key to_string
held = refl

act_all-times_example :
    idle_times 0 (act_all day (new_world 8 60)).pool.pools
      + times 0 (act_all day (new_world 8 60)).lent
    ≤ 1
act_all-times_example = act_all-times 8 60 day 0
