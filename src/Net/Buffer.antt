-- ===== src/Net/Buffer.antt =====
-- The byte buffer of src/net/buffer.cpp and include/gateway/net/buffer.h.
pub mod Refinement
mod Appending
pub mod Calls
pub mod Prepending
mod Tests
use api_gateway.Prelude.{
  ℕ, ◌+◌, ◌-◌, ◌%◌, ◌^◌, min, Bool, true, false, Option, none, some, [], ◌++◌, Bytes, length, take,
  drop, ltb, leb, ◌==◌, ◌||◌, if◌then◌else◌, replicate, crlf, double_crlf, is_empty,
}
use api_gateway.Prelude
use api_gateway.Prelude.Int.{ℤ, pos, negsuc}

abbrev pub initial_size : ℕ
initial_size = 4096

abbrev pub prependable : ℕ
prependable = 128

pub record Buffer : Type 0 where
  pub buf : Bytes
  pub read_idx : ℕ
  pub write_idx : ℕ

abbrev pub new_buffer : Buffer
new_buffer = record {
  buf = replicate (initial_size + prependable) 0;
  read_idx = prependable;
  write_idx = prependable;
}

unfoldable pub readable_size : Buffer → ℕ
readable_size b = b.write_idx - b.read_idx

unfoldable pub writable_size : Buffer → ℕ
writable_size b = length b.buf - b.write_idx

-- `read_as_string`: the bytes at `readable_data()`.
unfoldable pub readable : Buffer → Bytes
unfolding readable_size
readable b = take (readable_size b) (drop b.read_idx b.buf)

-- `memcpy` and `memmove` to a place of the vector.
unfoldable pub overwrite : ℕ → Bytes → Bytes → Bytes
overwrite i data_ buf = take i buf ++ (data_ ++ drop (i + length data_) buf)

unfoldable pub consume_all : Buffer → Buffer
consume_all b = record b { read_idx = prependable; write_idx = prependable }

unfoldable pub consume : ℕ → Buffer → Buffer
unfolding readable_size consume_all
consume n b =
    let c = record b { read_idx = b.read_idx + min n (readable_size b) } in
    if c.read_idx == c.write_idx then consume_all c else c

unfoldable pub shrink : Buffer → Buffer
unfolding readable overwrite readable_size
shrink b = if b.read_idx == prependable then b else record b {
  buf = if ltb 0 (readable_size b) then overwrite prependable (readable b) b.buf else b.buf;
  read_idx = prependable;
  write_idx = prependable + readable_size b;
}

-- `resize` fills with zeros.
unfoldable pub ensure_writable : ℕ → Buffer → Buffer
unfolding shrink writable_size
ensure_writable n b =
    if leb n (writable_size b)
    then b
    else if leb (n + prependable) (b.read_idx + writable_size b)
    then shrink b
    else record b { buf = b.buf ++ replicate (n - writable_size b) 0 }

-- Bytes put at the write index.
unfoldable pub put : Bytes → Buffer → Buffer
unfolding overwrite
put data_ b = record b {
  buf = overwrite b.write_idx data_ b.buf;
  write_idx = b.write_idx + length data_;
}

unfoldable pub append : Bytes → Buffer → Buffer
unfolding ensure_writable put
append data_ b = if is_empty data_ then b else put data_ (ensure_writable (length data_) b)

unfoldable pub append_buffer : Buffer → Buffer → Buffer
unfolding append readable
append_buffer other b = append (readable other) b

-- A new vector for what does not fit in front: its write index is computed when the read index
-- has already changed, with 64-bit subtraction and addition.
unfoldable pub make_room : ℕ → Buffer → Buffer
unfolding readable readable_size overwrite
make_room n b =
    let new_read = prependable + n in
    record {
      buf = overwrite new_read (readable b) (replicate (n + readable_size b + prependable) 0);
      read_idx = new_read;
      write_idx = (new_read + (b.write_idx + 2 ^ 64 - new_read) % 2 ^ 64) % 2 ^ 64;
    }

unfoldable pub put_front : Bytes → Buffer → Buffer
unfolding overwrite
put_front data_ b = record b {
  buf = overwrite (b.read_idx - length data_) data_ b.buf;
  read_idx = b.read_idx - length data_;
}

unfoldable pub prepend : Bytes → Buffer → Buffer
unfolding make_room put_front
prepend data_ b =
    if ltb b.read_idx (length data_)
    then put_front data_ (make_room (length data_) b)
    else put_front data_ b

-- `buffer::fast_search`, as a place in the text.
unfoldable pub fast_search : Bytes → Bytes → Option ℕ
fast_search needle haystack =
    if is_empty needle
    then some 0
    else if ltb (length haystack) (length needle)
    then none
    else Prelude.find needle haystack

unfoldable pub find : Bytes → Buffer → Option ℕ
unfolding fast_search readable readable_size
find needle b =
    if is_empty needle || ltb (readable_size b) (length needle)
    then none
    else fast_search needle (readable b)

unfoldable pub find_char : ℕ → Buffer → Option ℕ
unfolding readable
find_char c b = Prelude.find_char c (readable b)

unfoldable pub find_crlf : Buffer → Option ℕ
unfolding find
find_crlf b = find crlf b

unfoldable pub find_double_crlf : Buffer → Option ℕ
unfolding find
find_double_crlf b = find double_crlf b

-- What `readv` has put in: the bytes, or none on an error. The first part goes to the vector's
-- end, the second one to the stack buffer.
unfoldable pub read_from_fd : Option Bytes → Buffer → Buffer × ℤ
unfolding put append writable_size
read_from_fd none b = (b, negsuc 0)
read_from_fd (some received) b =
    if is_empty received
    then (b, pos 0)
    else if leb (length received) (writable_size b)
    then (put received b, pos (length received))
    else (
      append (drop (writable_size b) received) (put (take (writable_size b) received) b),
      pos (length received),
    )

-- What `write` returns: the bytes taken, or none on an error.
unfoldable pub write_to_fd : Option ℕ → Buffer → Buffer × ℤ
unfolding consume readable_size
write_to_fd result b =
    if readable_size b == 0
    then (b, pos 0)
    else elim result [ none ↦ (b, negsuc 0) | some n ↦ (if ltb 0 n then consume n b else b, pos n) ]

unfoldable pub swap : Buffer × Buffer → Buffer × Buffer
swap (a, b) = (b, a)
