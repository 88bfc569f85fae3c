-- ===== src/Net/Connection.antt =====
-- A client's connection: src/net/connection.cpp. What `recv` and `send` answer is an argument, and
-- `none` says that the answers or the fuel of the parser ran out. What the connection asks of
-- others is its list of effects.
pub mod Pipelining
pub mod Runs
mod Tests
use api_gateway.Prelude.{
  ℕ, zero, suc, Bool, true, false, not, ◌&&◌, ◌==◌, Option, none, some, List, [], ◌∷◌, ◌++◌, Bytes,
  length, ltb, is_empty, if◌then◌else◌,
}
use api_gateway.Prelude.Int.{ℤ, negsuc}
use api_gateway.Net.Buffer.{
  Buffer, new_buffer, readable_size, readable, consume, append, read_from_fd, write_to_fd,
}
use api_gateway.Http.Parser.State.{HttpParser, http_parser, reset, State, complete, error}
use api_gateway.Http.Parser.Process.{parse}

pub data ConnectionState : Type 0 where
  reading processing writing closing closed : ConnectionState

pub record Connection : Type 0 where
  pub fd : ℤ
  pub state : ConnectionState
  pub last_active_time : ℕ
  pub max_request_size : ℕ
  pub read_buf : Buffer
  pub write_buf : Buffer
  pub has_close_callback : Bool
  pub keep_alive : Bool
  pub parser : HttpParser

-- A new connection with its callbacks.
abbrev pub connection : ℤ → ℕ → ℕ → Connection
connection fd max_request_size now = record {
  fd = fd;
  state = reading;
  last_active_time = now;
  max_request_size = max_request_size;
  read_buf = new_buffer;
  write_buf = new_buffer;
  has_close_callback = true;
  keep_alive = false;
  parser = http_parser max_request_size;
}

-- The message callback with a request, the close callback, `mod_fd` with or without EPOLLOUT,
-- `shutdown`, and the removal and closing of the descriptor.
pub data Effect : Type 0 where
  message : Bytes → Effect
  close_called : ℤ → Effect
  watching : Bool → Effect
  shut_down : Effect
  removed : ℤ → Effect

abbrev pub Outcome : Type 0
Outcome = Connection × List Effect

unfoldable pub is_closed : ConnectionState → Bool
is_closed closed = true
is_closed _ = false

-- The close callback is moved out, so it is called once.
unfoldable pub close_internal : Connection → Outcome
unfolding is_closed
close_internal c = if is_closed c.state then (c, []) else (
  record c { fd = negsuc 0; state = closed; has_close_callback = false },
  removed c.fd ∷ (if c.has_close_callback then close_called c.fd ∷ [] else []),
)

-- After `parse`, with what it has consumed taken from the buffer.
abbrev pub fed : ℕ → HttpParser → Connection → Connection
fed consumed p c = record c { read_buf = consume consumed c.read_buf; parser = p }

unfoldable pub is_unfinished : State → Bool
is_unfinished complete = false
is_unfinished error = false
is_unfinished _ = true

unfoldable pub end_parsing : State → Connection → Outcome
unfolding close_internal
end_parsing complete c =
    (record c { parser = reset c.parser; state = processing }, message c.parser.raw ∷ [])
end_parsing error c = close_internal c
end_parsing _ c = (c, [])

-- The loop of `try_parse_message`, on fuel; the first fuel is that of each call of the parser.
unfoldable pub try_parse_message : ℕ → ℕ → Connection → Option Outcome
unfolding end_parsing is_unfinished
try_parse_message fuel zero c = none
try_parse_message fuel (suc n) c =
    elim (readable_size c.read_buf == 0 && is_empty c.parser.partial) [
      | true ↦ some (c, [])
      | false ↦ elim (parse fuel (readable c.read_buf) c.parser) [
        | none ↦ none
        | some (p, consumed) ↦ elim (is_unfinished p.state && not (consumed == 0)) [
          | true ↦ try_parse_message fuel n (fed consumed p c)
          | false ↦ some (end_parsing p.state (fed consumed p c))
        ]
      ]
    ]

-- What one `read_from_fd` gives; no bytes are the end of the stream.
pub data ReadAnswer : Type 0 where
  bytes_read : Bytes → ReadAnswer
  nothing_yet : ReadAnswer
  failed : ReadAnswer

unfoldable pub read_loop : ℕ → List ReadAnswer → Connection → Option Outcome
unfolding close_internal try_parse_message
read_loop fuel [] c = none
read_loop fuel (bytes_read [] ∷ answers) c = some (close_internal c)
read_loop fuel (bytes_read (d ∷ s) ∷ answers) c =
    let filled = record c { read_buf = (read_from_fd (some (d ∷ s)) c.read_buf).0 } in
    elim (ltb c.max_request_size (readable_size filled.read_buf)) [
      | true ↦ some (close_internal filled)
      | false ↦ read_loop fuel answers filled
    ]
read_loop fuel (nothing_yet ∷ answers) c = try_parse_message fuel fuel c
read_loop fuel (failed ∷ answers) c = some (close_internal c)

unfoldable pub on_read : ℕ → ℕ → List ReadAnswer → Connection → Option Outcome
unfolding read_loop close_internal
on_read fuel now answers c = elim c.state [
  | reading ↦ read_loop fuel answers (record c { last_active_time = now })
  | processing ↦ some (c, [])
  | writing ↦ some (c, [])
  | closing ↦ some (close_internal c)
  | closed ↦ some (c, [])
]

-- More effects after the first ones.
abbrev pub after : List Effect → Option Outcome → Option Outcome
after es none = none
after es (some (c, fs)) = some (c, es ++ fs)

-- The requests that the parser has already got.
unfoldable pub resume : ℕ → Connection → Option Outcome
unfolding try_parse_message
resume fuel c = if is_empty c.parser.partial then some (c, []) else try_parse_message fuel fuel c

unfoldable pub finish_response : ℕ → Connection → Option Outcome
unfolding resume
finish_response fuel c =
    if c.keep_alive
    then after (watching false ∷ [])
        (resume fuel (record c { state = reading; parser = reset c.parser }))
    else some (record c { state = closing }, shut_down ∷ watching false ∷ [])

-- What one `write_to_fd` gives.
pub data WriteAnswer : Type 0 where
  wrote : ℕ → WriteAnswer
  full : WriteAnswer
  write_failed : WriteAnswer

unfoldable pub write_loop : ℕ → List WriteAnswer → Connection → Option Outcome
unfolding finish_response close_internal
write_loop fuel [] c = if readable_size c.write_buf == 0 then finish_response fuel c else none
write_loop fuel (a ∷ answers) c = elim (readable_size c.write_buf == 0) [
  | true ↦ finish_response fuel c
  | false ↦ elim a [
    | wrote n ↦ elim (n == 0) [
      | true ↦ some (c, [])
      | false ↦
          write_loop fuel answers (record c { write_buf = (write_to_fd (some n) c.write_buf).0 })
    ]
    | full ↦ some (c, [])
    | write_failed ↦ some (close_internal c)
  ]
]

unfoldable pub on_write : ℕ → ℕ → List WriteAnswer → Connection → Option Outcome
unfolding write_loop
on_write fuel now answers c = elim c.state [
  | reading ↦ some (c, [])
  | processing ↦ some (c, [])
  | writing ↦ write_loop fuel answers (record c { last_active_time = now })
  | closing ↦ some (c, [])
  | closed ↦ some (c, [])
]

unfoldable pub accepts : ConnectionState → Bool
accepts reading = true
accepts processing = true
accepts _ = false

unfoldable pub send_internal : ℕ → ℕ → List WriteAnswer → Bytes → Bool → Connection → Option Outcome
unfolding on_write accepts
send_internal fuel now answers data_ keep_alive c =
    if accepts c.state
    then after (watching true ∷ []) (
        on_write fuel now answers (record c {
          keep_alive = keep_alive;
          write_buf = append data_ c.write_buf;
          state = writing;
        }))
    else some (c, [])

-- The events of the loop, and the tasks that `send` and `force_close` have deferred. `force_close`
-- defers nothing for a closed connection, for which `close_internal` does nothing.
pub data ConnectionEvent : Type 0 where
  can_read : ℕ → List ReadAnswer → ConnectionEvent
  can_write : ℕ → List WriteAnswer → ConnectionEvent
  send : ℕ → List WriteAnswer → Bytes → Bool → ConnectionEvent
  force_close : ConnectionEvent

unfoldable pub on_event : ℕ → ConnectionEvent → Connection → Option Outcome
unfolding on_read on_write send_internal close_internal
on_event fuel (can_read now answers) c = on_read fuel now answers c
on_event fuel (can_write now answers) c = on_write fuel now answers c
on_event fuel (send now answers data_ keep_alive) c =
    send_internal fuel now answers data_ keep_alive c
on_event fuel force_close c = some (close_internal c)
