-- ===== src/Net/Buffer/Calls.antt =====
-- Sequences of calls of the buffer against the text that they mean.
use api_gateway.Prelude.{List, ◌∷◌, none, none, ◌⊎◌, ◌∷◌, ◌⊎◌, ℕ, ◌++◌, Bytes}
use api_gateway.Net.Buffer.{
  Option, drop, some, write_to_fd, read_from_fd, append, [], consume_all, consume, Buffer,
}

-- The calls that change a buffer, `prepend` apart.
pub data Call : Type 0 where
  appending : Bytes → Call
  consuming : ℕ → Call
  consuming_all : Call
  reading : Option Bytes → Call
  writing : Option ℕ → Call

abbrev pub perform : Call → Buffer → Buffer
perform (appending s) b = append s b
perform (consuming n) b = consume n b
perform consuming_all b = consume_all b
perform (reading received) b = (read_from_fd received b).0
perform (writing result) b = (write_to_fd result b).0

-- What a call means for the text in the buffer.
abbrev pub meaning : Call → Bytes → Bytes
meaning (appending s) t = t ++ s
meaning (consuming n) t = drop n t
meaning consuming_all t = []
meaning (reading none) t = t
meaning (reading (some received)) t = t ++ received
meaning (writing none) t = t
meaning (writing (some n)) t = drop n t

-- Calls in a row, the first one first.
unfoldable pub perform_all : List Call → Buffer → Buffer
perform_all [] b = b
perform_all (call ∷ calls) b = perform_all calls (perform call b)

unfoldable pub meaning_all : List Call → Bytes → Bytes
meaning_all [] t = t
meaning_all (call ∷ calls) t = meaning_all calls (meaning call t)
