-- ===== src/Net/Buffer/Tests.antt =====
-- Runs of the buffer.
use api_gateway.Prelude.{◌≡◌, refl, none, some, List, [], ◌∷◌, ◌++◌, bytes, replicate, arith}
use api_gateway.Net.Buffer.{Buffer, readable, append, ensure_writable, put, overwrite}
use api_gateway.Net.Buffer.Refinement.{IsValid}
use api_gateway.Net.Buffer.Calls.{Call, appending, consuming, reading, writing}

abbrev calls : List Call
calls =
    appending (bytes "GET /")
    ∷ reading (some (bytes " HTTP"))
    ∷ reading none
    ∷ consuming 4
    ∷ writing (some 2)
    ∷ []

abbrev small : Buffer
small = record { buf = replicate 130 b'x' ++ bytes "ab"; read_idx = 128; write_idx = 132 }

small-IsValid : IsValid small
small-IsValid = record { ordered = omega arith; inside = omega arith }

append_run : readable (append (bytes "cdef") small) ≡ bytes "xxabcdef"
unfolding readable append put overwrite ensure_writable
append_run = refl

-- Two hundred bytes before an empty buffer: it stays empty.
