-- ===== src/Net/Connection/Pipelining.antt =====
-- One request of a connection at a time.
use api_gateway.Net.Connection.{resume, on_write}
use api_gateway.Net.Connection.{
  false, Bool, on_read, after, finish_response, write_loop, WriteAnswer, wrote, full, write_failed,
  watching,
}
use api_gateway.Http.Parser.State.{
  reset, State, complete, error, request_line, headers, body, chunked_body,
}
use api_gateway.Prelude.{
  ap, ℕ, zero, suc, ◌+◌, ◌≤◌, ◌≡◌, refl, true, not, ◌&&◌, ◌==◌, Option, none, some, List, [], ◌∷◌,
  ltb, is_empty, if◌then◌else◌, Bool-cases, Option-cases, inl, inr, arith,
}
use api_gateway.Net.Buffer.{write_to_fd, readable_size, readable, read_from_fd}
use api_gateway.Http.Parser.State.{State, complete, error}
use api_gateway.Http.Parser.Process.{parse}
use api_gateway.Net.Connection.{
  ConnectionState, reading, processing, writing, closing, closed, Connection, Effect, message,
  close_called, watching, shut_down, removed, Outcome, close_internal, is_closed, fed, end_parsing,
  is_unfinished, try_parse_message, ReadAnswer, bytes_read, nothing_yet, failed, read_loop,
}

-- How many requests the message callback gets.
unfoldable pub messages : List Effect → ℕ
messages [] = 0
messages (message raw ∷ es) = messages es + 1
messages (close_called fd ∷ es) = messages es
messages (watching w ∷ es) = messages es
messages (shut_down ∷ es) = messages es
messages (removed fd ∷ es) = messages es

-- How often the close callback is called.
unfoldable pub closes : List Effect → ℕ
closes [] = 0
closes (message raw ∷ es) = closes es
closes (close_called fd ∷ es) = closes es + 1
closes (watching w ∷ es) = closes es
closes (shut_down ∷ es) = closes es
closes (removed fd ∷ es) = closes es

-- 1 when a request may be under way, or the connection is closed.
unfoldable pub held : ConnectionState → ℕ
held processing = 1
held closed = 1
held _ = 0

-- 1 as long as the close callback can still be called.
abbrev pub callable : Connection → ℕ
callable c = if c.has_close_callback then 1 else 0

-- What an outcome may add: a message only if the state then holds it, a call of the close callback
-- only if there was one.
abbrev pub IsFair : ℕ → ℕ → Option Outcome → Type 0
IsFair h k none = Unit {0}
IsFair h k (some (c', es)) = (messages es + h ≤ held c'.state) × (closes es + callable c' ≤ k)

pub held-le : (s : ConnectionState) → held s ≤ 1
unfolding held
held-le reading = omega arith
held-le processing = omega arith
held-le writing = omega arith
held-le closing = omega arith
held-le closed = omega arith

closed-held : (s : ConnectionState) → is_closed s ≡ true → held s ≡ 1
unfolding held is_closed
closed-held reading e = cc
closed-held processing e = cc
closed-held writing e = cc
closed-held closing e = cc
closed-held closed e = refl

pub close_internal-IsFair :
    (h : ℕ) (c : Connection) → h ≤ 1 → IsFair h (callable c) (some (close_internal c))
unfolding close_internal messages closes held
close_internal-IsFair h c le = elim (Bool-cases (is_closed c.state)) [
  | inl over ↦ rw (over, close_internal) (omega (arith, closed-held c.state over), omega arith)
  | inr still ↦ elim (Bool-cases c.has_close_callback) [
    | inl there ↦ rw (still, close_internal) (rw there (omega arith, omega arith))
    | inr gone ↦ rw (still, close_internal) (rw gone (omega arith, omega arith))
  ]
]

end_parsing-IsFair : (s : State) (c : Connection) → IsFair 0 (callable c) (some (end_parsing s c))
unfolding end_parsing messages closes held
end_parsing-IsFair complete c = (omega arith, omega arith)
end_parsing-IsFair error c = close_internal-IsFair 0 c (omega arith)
end_parsing-IsFair request_line c = (omega arith, omega arith)
end_parsing-IsFair headers c = (omega arith, omega arith)
end_parsing-IsFair body c = (omega arith, omega arith)
end_parsing-IsFair chunked_body c = (omega arith, omega arith)

try_parse_message-IsFair :
    (fuel n : ℕ) (c : Connection) → IsFair 0 (callable c) (try_parse_message fuel n c)
unfolding try_parse_message messages closes held
try_parse_message-IsFair fuel zero c = tt
try_parse_message-IsFair fuel (suc n) c =
    elim (Bool-cases (readable_size c.read_buf == 0 && is_empty c.parser.partial)) [
      | inl quiet ↦ rw (quiet, try_parse_message) (omega arith, omega arith)
      | inr more ↦ elim (Option-cases (parse fuel (readable c.read_buf) c.parser)) [
        | inl hangs ↦ rw (more, hangs, try_parse_message) tt
        | inr ((p, consumed), q) ↦
            elim (Bool-cases (is_unfinished p.state && not (consumed == 0))) [
              | inl on ↦
                  rw (more, q, on, try_parse_message)
                    (try_parse_message-IsFair fuel n (fed consumed p c))
              | inr stop ↦
                  rw (more, q, stop, try_parse_message)
                    (end_parsing-IsFair p.state (fed consumed p c))
            ]
      ]
    ]

read_loop-IsFair :
    (fuel : ℕ) (answers : List ReadAnswer) (c : Connection)
    → IsFair 0 (callable c) (read_loop fuel answers c)
unfolding read_loop
read_loop-IsFair fuel [] c = tt
read_loop-IsFair fuel (bytes_read [] ∷ answers) c = close_internal-IsFair 0 c (omega arith)
read_loop-IsFair fuel (bytes_read (d ∷ s) ∷ answers) c =
    let filled = record c { read_buf = (read_from_fd (some (d ∷ s)) c.read_buf).0 } in
    elim (Bool-cases (ltb c.max_request_size (readable_size filled.read_buf))) [
      | inl big ↦ rw (big, read_loop) (close_internal-IsFair 0 filled (omega arith))
      | inr fits ↦ rw (fits, read_loop) (read_loop-IsFair fuel answers filled)
    ]
read_loop-IsFair fuel (nothing_yet ∷ answers) c = try_parse_message-IsFair fuel fuel c
read_loop-IsFair fuel (failed ∷ answers) c = close_internal-IsFair 0 c (omega arith)

pub on_read-IsFair :
    (fuel now : ℕ) (answers : List ReadAnswer) (c : Connection)
    → IsFair (held c.state) (callable c) (on_read fuel now answers c)
unfolding on_read messages closes held
on_read-IsFair fuel now answers c = go c.state refl
  where
    go :
        (s : ConnectionState)
        → c.state ≡ s
        → IsFair (held c.state) (callable c) (on_read fuel now answers c)
    go reading e =
        rw (e, on_read) (read_loop-IsFair fuel answers (record c { last_active_time = now }))
    go processing e = rw (e, on_read) (omega (arith, ap held e), omega arith)
    go writing e = rw (e, on_read) (omega (arith, ap held e), omega arith)
    go closing e = rw (e, on_read) (close_internal-IsFair 0 c (omega arith))
    go closed e = rw (e, on_read) (omega (arith, ap held e), omega arith)

pub after_watching-IsFair :
    (h k : ℕ) (w : Bool) (o : Option Outcome)
    → IsFair h k o
    → IsFair h k (after (watching w ∷ []) o)
unfolding messages closes
after_watching-IsFair h k w none f = tt
after_watching-IsFair h k w (some (c, es)) f = f

if-IsFair :
    (h k : ℕ) (b : Bool) (o p : Option Outcome)
    → IsFair h k o
    → IsFair h k p
    → IsFair h k (if b then o else p)
if-IsFair h k true o p f g = f
if-IsFair h k false o p f g = g

resume-IsFair : (fuel : ℕ) (c : Connection) → IsFair 0 (callable c) (resume fuel c)
unfolding resume messages closes
resume-IsFair fuel c =
    if-IsFair 0 (callable c) (is_empty c.parser.partial) _ _ (omega arith, omega arith)
      (try_parse_message-IsFair fuel fuel c)

finish_response-IsFair :
    (fuel : ℕ) (c : Connection) → IsFair 0 (callable c) (finish_response fuel c)
unfolding finish_response messages closes held
finish_response-IsFair fuel c =
    let c' = record c { state = reading; parser = reset c.parser } in
    if-IsFair 0 (callable c) c.keep_alive _ _
      (after_watching-IsFair 0 (callable c) false (resume fuel c') (resume-IsFair fuel c'))
      (omega arith, omega arith)

write_loop-IsFair :
    (fuel : ℕ) (answers : List WriteAnswer) (c : Connection)
    → IsFair 0 (callable c) (write_loop fuel answers c)
unfolding write_loop messages closes
write_loop-IsFair fuel [] c =
    if-IsFair 0 (callable c) (readable_size c.write_buf == 0) _ _ (finish_response-IsFair fuel c) tt
write_loop-IsFair fuel (wrote n ∷ answers) c =
    let rest =
      write_loop-IsFair fuel answers
        (record c { write_buf = (write_to_fd (some n) c.write_buf).0 }) in
    elim (Bool-cases (readable_size c.write_buf == 0)) [
      | inl done_ ↦ rw (done_, write_loop) (finish_response-IsFair fuel c)
      | inr more ↦ elim (Bool-cases (n == 0)) [
        | inl none_ ↦ rw (more, none_, write_loop) (omega arith, omega arith)
        | inr some_ ↦ rw (more, some_, write_loop) rest
      ]
    ]
write_loop-IsFair fuel (full ∷ answers) c = elim (Bool-cases (readable_size c.write_buf == 0)) [
  | inl done_ ↦ rw (done_, write_loop) (finish_response-IsFair fuel c)
  | inr more ↦ rw (more, write_loop) (omega arith, omega arith)
]
write_loop-IsFair fuel (write_failed ∷ answers) c =
    elim (Bool-cases (readable_size c.write_buf == 0)) [
      | inl done_ ↦ rw (done_, write_loop) (finish_response-IsFair fuel c)
      | inr more ↦ rw (more, write_loop) (close_internal-IsFair 0 c (omega arith))
    ]

pub on_write-IsFair :
    (fuel now : ℕ) (answers : List WriteAnswer) (c : Connection)
    → IsFair (held c.state) (callable c) (on_write fuel now answers c)
unfolding on_write messages closes held
on_write-IsFair fuel now answers c = go c.state refl
  where
    go :
        (s : ConnectionState)
        → c.state ≡ s
        → IsFair (held c.state) (callable c) (on_write fuel now answers c)
    go reading e = rw (e, on_write) (omega (arith, ap held e), omega arith)
    go processing e = rw (e, on_write) (omega (arith, ap held e), omega arith)
    go writing e =
        rw (e, on_write) (write_loop-IsFair fuel answers (record c { last_active_time = now }))
    go closing e = rw (e, on_write) (omega (arith, ap held e), omega arith)
    go closed e = rw (e, on_write) (omega (arith, ap held e), omega arith)
