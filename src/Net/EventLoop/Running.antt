-- ===== src/Net/EventLoop/Running.antt =====
-- The loop itself: the callbacks, a round, and `run`, in src/net/event_loop.cpp. What a callback
-- does to the loop is an argument, as is what `epoll_wait` answers, once for each round. The
-- deferred tasks are apart, in their own record.
use api_gateway.Prelude.{
  ap, ==_self, refl, ◌∙◌, if◌then◌else◌, true, ◌≡◌, All, Bool, Option, List, false, ℕ, ◌∷◌, [],
  none, some,
}
use api_gateway.Prelude.Map.{lookup-erase, nat_key, lookup, insert, erase}
use api_gateway.Net.EventLoop.{Registrations}

module _ {ℓ} (Callback : Type ℓ) where
  pub record Dispatcher : Type ℓ where
    pub callbacks : List (ℕ × Callback)
    pub registrations : Registrations
    pub running : Bool

-- An event: a descriptor and what happened to it.
abbrev pub Event : Type 0
Event = ℕ × ℕ

pub data WaitAnswer : Type 0 where
  events : List Event → WaitAnswer
  interrupted : WaitAnswer
  wait_failed : WaitAnswer

module _ {ℓ} {Callback : Type ℓ} where
  abbrev pub dispatcher : Dispatcher Callback
  dispatcher = record { callbacks = []; registrations = []; running = false }

  unfoldable pub set_callback : ℕ → Callback → Dispatcher Callback → Dispatcher Callback
  set_callback fd cb d = record d { callbacks = insert fd cb d.callbacks }

  unfoldable pub remove_callback : ℕ → Dispatcher Callback → Dispatcher Callback
  remove_callback fd d = record d { callbacks = erase fd d.callbacks }

  -- Whatever `epoll_ctl` answers.
  unfoldable pub del_fd : ℕ → Dispatcher Callback → Dispatcher Callback
  del_fd fd d = record d {
    callbacks = erase fd d.callbacks;
    registrations = erase fd d.registrations;
  }

  unfoldable pub stop : Dispatcher Callback → Dispatcher Callback
  stop d = record d { running = false }

module _ {ℓ} {Callback : Type ℓ}
    (call : Callback → Event → Dispatcher Callback → Dispatcher Callback)
    (idle : Dispatcher Callback → Dispatcher Callback) where
  -- The callback is looked up when its event comes up, behind those of the events before it.
  unfoldable pub dispatch : Event → Dispatcher Callback → Dispatcher Callback
  dispatch (fd, what) d = elim (lookup fd d.callbacks) [ none ↦ d | some cb ↦ call cb (fd, what) d ]

  unfoldable pub dispatch_all : List Event → Dispatcher Callback → Dispatcher Callback
  unfolding dispatch
  dispatch_all [] d = d
  dispatch_all (e ∷ es) d = dispatch_all es (dispatch e d)

  -- The loop of `run`; `none` says that the answers ran out.
  unfoldable pub run_loop : List WaitAnswer → Dispatcher Callback → Option (Dispatcher Callback)
  unfolding dispatch_all
  run_loop [] d = if d.running then none else some d
  run_loop (interrupted ∷ answers) d = if d.running then run_loop answers d else some d
  run_loop (wait_failed ∷ answers) d = some d
  run_loop (events es ∷ answers) d =
      if d.running then run_loop answers (idle (dispatch_all es d)) else some d

  unfoldable pub run_event_loop :
      List WaitAnswer → Dispatcher Callback → Option (Dispatcher Callback)
  unfolding run_loop
  run_event_loop answers d = run_loop answers (record d { running = true })

  dispatch-none :
      (fd what : ℕ) (d : Dispatcher Callback)
      → lookup fd d.callbacks ≡ none
      → dispatch (fd, what) d ≡ d
  unfolding dispatch
  dispatch-none fd what d e = rw (e, dispatch) refl

  -- Once a descriptor has been deleted, the events that are still there for it do nothing.
  dispatch_all-removed :
      (fd : ℕ) (es : List Event) (d : Dispatcher Callback)
      → All (λ e. e.0 ≡ fd) es
      → dispatch_all es (del_fd fd d) ≡ del_fd fd d
  unfolding dispatch_all del_fd
  dispatch_all-removed fd [] d h = refl
  dispatch_all-removed fd ((j, what) ∷ es) d h =
      let gone : lookup j (erase fd d.callbacks) ≡ none =
        lookup-erase fd j d.callbacks ∙ rw (h.0, ==_self fd) refl in
      ap (dispatch_all es) (dispatch-none j what (del_fd fd d) gone)
      ∙ dispatch_all-removed fd es d h.1

  -- A stop takes effect at the end of the round in which it is called.
  run_loop-stopped :
      (es : List Event) (answers : List WaitAnswer) (d : Dispatcher Callback)
      → d.running ≡ true
      → (idle (dispatch_all es d)).running ≡ false
      → run_loop (events es ∷ answers) d ≡ some (idle (dispatch_all es d))
  unfolding run_loop
  run_loop-stopped es [] d r s = rw (s, r) refl
  run_loop-stopped es (events x ∷ answers) d r s = rw (s, r) refl
  run_loop-stopped es (interrupted ∷ answers) d r s = rw (s, r) refl
  run_loop-stopped es (wait_failed ∷ answers) d r s = rw r refl
