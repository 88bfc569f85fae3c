-- ===== src/Net/EventLoop/RunTests.antt =====
-- Runs of the loop itself.
use api_gateway.Prelude.{refl, false, ◌≡◌, ℕ, ◌∷◌, [], some}
use api_gateway.Prelude.Map.{insert, lookup, erase}
use api_gateway.Net.EventLoop.Running.{
  Dispatcher, dispatcher, Event, events, interrupted, set_callback, del_fd, stop, run_event_loop,
}

-- A callback is the descriptor that it deletes.
abbrev deleting : ℕ → Event → Dispatcher ℕ → Dispatcher ℕ
deleting other e d = del_fd other d

-- The first event deletes the second one's descriptor, whose callback is not called any more; the
-- idle callback stops the loop.
second_not_called :
    run_event_loop deleting stop
      (interrupted ∷ events ((3, 1) ∷ (4, 1) ∷ []) ∷ events [] ∷ [])
      (set_callback 3 4 (set_callback 4 5 (set_callback 5 5 dispatcher)))
    ≡ some (record { callbacks = (5, 5) ∷ (3, 4) ∷ []; registrations = []; running = false })
unfolding run_event_loop set_callback del_fd stop lookup erase insert
second_not_called = refl
