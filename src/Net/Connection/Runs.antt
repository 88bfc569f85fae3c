-- ===== src/Net/Connection/Runs.antt =====
-- A connection over all its events: its requests one at a time, and one call of the close callback.
use api_gateway.Prelude.{
  ℕ, ◌+◌, ◌≤◌, ◌≡◌, true, Option, none, some, List, [], ◌∷◌, ◌++◌, if◌then◌else◌, Bool-cases, inl,
  inr, arith,
}
use api_gateway.Prelude.Int.{ℤ}
use api_gateway.Net.Buffer.{append}
use api_gateway.Net.Connection.{
  writing, Connection, connection, Effect, message, close_called, watching, shut_down, removed,
  Outcome, on_read, on_write, after, accepts, send_internal, ConnectionEvent, can_read, can_write,
  send, force_close, on_event, close_internal,
}
use api_gateway.Net.Connection.Pipelining.{
  messages, closes, held, callable, IsFair, held-le, close_internal-IsFair, on_read-IsFair,
  on_write-IsFair, after_watching-IsFair,
}

-- 1 for a response that the connection takes.
unfoldable pub accepted : ConnectionEvent → Connection → ℕ
accepted (can_read now answers) c = 0
accepted (can_write now answers) c = 0
accepted (send now answers data_ keep_alive) c = if accepts c.state then 1 else 0
accepted force_close c = 0

-- What has happened: the connection, all its effects, and how many responses it has taken.
pub record Run : Type 0 where
  pub last : Connection
  pub effects : List Effect
  pub taken : ℕ

abbrev added : ℕ → Option Outcome → (Connection → Option Run) → Option Run
added n none rest = none
added n (some (c, es)) rest = elim (rest c) [
  | none ↦ none
  | some r ↦ some (record r { effects = es ++ r.effects; taken = n + r.taken })
]

unfoldable pub run_events : ℕ → List ConnectionEvent → Connection → Option Run
unfolding accepted on_event
run_events fuel [] c = some (record { last = c; effects = []; taken = 0 })
run_events fuel (e ∷ events) c =
    added (accepted e c) (on_event fuel e c) (λ c'. run_events fuel events c')

abbrev IsFairEvent : ℕ → Connection → Option Outcome → Type 0
IsFairEvent n c none = Unit {0}
IsFairEvent n c (some (c', es)) =
    (messages es + held c.state ≤ n + held c'.state) × (closes es + callable c' ≤ callable c)

fair_event :
    (c : Connection) (o : Option Outcome) → IsFair (held c.state) (callable c) o → IsFairEvent 0 c o
fair_event c none f = tt
fair_event c (some (c', es)) f = (omega (arith, f.0), f.1)

fair_reply : (c : Connection) (o : Option Outcome) → IsFair 0 (callable c) o → IsFairEvent 1 c o
fair_reply c none f = tt
fair_reply c (some (c', es)) f = (omega (arith, f.0, held-le c.state), f.1)

on_event-IsFairEvent :
    (fuel : ℕ) (e : ConnectionEvent) (c : Connection)
    → IsFairEvent (accepted e c) c (on_event fuel e c)
unfolding accepted on_event send_internal held messages closes
on_event-IsFairEvent fuel (can_read now answers) c =
    fair_event c (on_read fuel now answers c) (on_read-IsFair fuel now answers c)
on_event-IsFairEvent fuel (can_write now answers) c =
    fair_event c (on_write fuel now answers c) (on_write-IsFair fuel now answers c)
on_event-IsFairEvent fuel force_close c =
    fair_event c (some (close_internal c))
      (close_internal-IsFair (held c.state) c (held-le c.state))
on_event-IsFairEvent fuel (send now answers data_ keep_alive) c =
    let c' = record c {
      keep_alive = keep_alive;
      write_buf = append data_ c.write_buf;
      state = writing;
    } in
    elim (Bool-cases (accepts c.state)) [
      | inr refused ↦ rw (refused, send_internal, accepted) (omega arith, omega arith)
      | inl taken ↦
          rw (taken, send_internal, accepted)
            (fair_reply c (after (watching true ∷ []) (on_write fuel now answers c')) (
              after_watching-IsFair 0 (callable c) true (on_write fuel now answers c')
                (on_write-IsFair fuel now answers c')))
    ]

messages-append : (es fs : List Effect) → messages (es ++ fs) ≡ messages es + messages fs
unfolding messages
messages-append [] fs = omega arith
messages-append (message raw ∷ es) fs = omega (arith, messages-append es fs)
messages-append (close_called fd ∷ es) fs = messages-append es fs
messages-append (watching w ∷ es) fs = messages-append es fs
messages-append (shut_down ∷ es) fs = messages-append es fs
messages-append (removed fd ∷ es) fs = messages-append es fs

closes-append : (es fs : List Effect) → closes (es ++ fs) ≡ closes es + closes fs
unfolding closes
closes-append [] fs = omega arith
closes-append (message raw ∷ es) fs = closes-append es fs
closes-append (close_called fd ∷ es) fs = omega (arith, closes-append es fs)
closes-append (watching w ∷ es) fs = closes-append es fs
closes-append (shut_down ∷ es) fs = closes-append es fs
closes-append (removed fd ∷ es) fs = closes-append es fs

abbrev IsFairRun : Connection → Option Run → Type 0
IsFairRun c none = Unit {0}
IsFairRun c (some r) =
    (messages r.effects + held c.state ≤ r.taken + held r.last.state)
    × (closes r.effects + callable r.last ≤ callable c)

added-IsFairRun :
    (n : ℕ) (c : Connection) (o : Option Outcome) (rest : Connection → Option Run)
    → IsFairEvent n c o
    → ((c' : Connection) → IsFairRun c' (rest c'))
    → IsFairRun c (added n o rest)
added-IsFairRun n c none rest f g = tt
added-IsFairRun n c (some (c', es)) rest f g = go (rest c') (g c')
  where
    go :
        (o : Option Run)
        → IsFairRun c' o
        → IsFairRun c (elim o as (λ _. Option Run) [
          | none ↦ none
          | some r ↦ some (record r { effects = es ++ r.effects; taken = n + r.taken })
        ])
    go none h = tt
    go (some r) h = (
      omega (arith, f.0, h.0, messages-append es r.effects),
      omega (arith, f.1, h.1, closes-append es r.effects),
    )

run_events-IsFairRun :
    (fuel : ℕ) (events : List ConnectionEvent) (c : Connection)
    → IsFairRun c (run_events fuel events c)
unfolding run_events messages closes
run_events-IsFairRun fuel [] c = (omega arith, omega arith)
run_events-IsFairRun fuel (e ∷ events) c =
    added-IsFairRun (accepted e c) c (on_event fuel e c) (λ c'. run_events fuel events c')
      (on_event-IsFairEvent fuel e c) (λ c'. run_events-IsFairRun fuel events c')

-- Nothing, for a run_events whose answers or fuel run_events out.
abbrev pub effects_of : Option Run → List Effect
effects_of none = []
effects_of (some r) = r.effects

abbrev pub taken_of : Option Run → ℕ
taken_of none = 0
taken_of (some r) = r.taken

fair_run-le :
    (c : Connection) (o : Option Run)
    → IsFairRun c o
    → (messages (effects_of o) ≤ taken_of o + 1) × (closes (effects_of o) ≤ callable c)
unfolding messages closes
fair_run-le c none f = (omega arith, omega arith)
fair_run-le c (some r) f = (omega (arith, f.0, held-le r.last.state), omega (arith, f.1))

-- Over any sequence of events on a new connection (readable, writable, responses from other
-- threads, forced closing), whatever the socket answers, the message callback has got at most one
-- request more than the connection has taken responses, and the close callback has been called at
-- most once.
pub run_events-messages :
    (fuel : ℕ) (events : List ConnectionEvent) (fd : ℤ) (max_request_size now : ℕ)
    → let o = run_events fuel events (connection fd max_request_size now) in
      (messages (effects_of o) ≤ taken_of o + 1) × (closes (effects_of o) ≤ 1)
run_events-messages fuel events fd max_request_size now =
    fair_run-le (connection fd max_request_size now)
      (run_events fuel events (connection fd max_request_size now))
      (run_events-IsFairRun fuel events (connection fd max_request_size now))
