-- ===== src/Net/Buffer/Prepending.antt =====
-- `prepend` within the reserve, and beyond it.
use api_gateway.Prelude.{
  lt→ltb, ℕ, ◌+◌, ◌-◌, ◌^◌, ◌≤◌, ◌<◌, ◌≡◌, refl, ap, ◌∙◌, ◌++◌, Bytes, length, take, drop,
  length-take, arith,
}
use api_gateway.Net.Buffer.{
  Buffer, prependable, readable, readable_size, overwrite, prepend, put_front, make_room,
}
use api_gateway.Net.Buffer.Refinement.{IsValid}
use api_gateway.Prelude.Slices.{drop-append_at, take-append_over}

put_front-readable :
    (s : Bytes) (b : Buffer)
    → IsValid b
    → length s ≤ b.read_idx
    → readable (put_front s b) ≡ s ++ readable b
unfolding readable readable_size put_front overwrite
put_front-readable s b v room =
    let i = b.read_idx - length s in
    let z = drop b.read_idx b.buf in
    let back : i + length s ≡ b.read_idx = omega (arith, room) in
    let size : b.write_idx - i ≡ length s + (b.write_idx - b.read_idx) =
      omega (arith, room, v.ordered) in
    let whole : drop i (take i b.buf ++ (s ++ drop (i + length s) b.buf)) ≡ s ++ z =
      drop-append_at i (take i b.buf) (s ++ drop (i + length s) b.buf)
        (omega (arith, length-take i b.buf, v.ordered, v.inside))
      ∙ ap (λ k. s ++ drop k b.buf) back in
    ap (take (b.write_idx - i)) whole
    ∙ ap (λ k. take k (s ++ z)) size
    ∙ take-append_over (b.write_idx - b.read_idx) s z

-- In a buffer whose indices are in order and inside the vector, a text that fits into the space
-- before the readable bytes is put before them.
pub prepend-readable :
    (s : Bytes) (b : Buffer)
    → IsValid b
    → length s ≤ b.read_idx
    → readable (prepend s b) ≡ s ++ readable b
unfolding prepend
prepend-readable s b v room =
    let kept : prepend s b ≡ put_front s b = ground arith in
    ap readable kept ∙ put_front-readable s b v room

prepend-make_room :
    (s : Bytes) (b : Buffer)
    → b.read_idx < length s
    → prepend s b ≡ put_front s (make_room (length s) b)
unfolding prepend
prepend-make_room s b beyond = rw (lt→ltb b.read_idx (length s) beyond) refl

make_room-write_idx :
    (n : ℕ) (b : Buffer)
    → b.write_idx < 2 ^ 63
    → n < 2 ^ 62
    → (make_room n b).write_idx ≡ b.write_idx
unfolding make_room
make_room-write_idx n b small short = omega (arith, small, short)

make_room-read_idx :
    (s : Bytes) (b : Buffer) → (put_front s (make_room (length s) b)).read_idx ≡ prependable
unfolding put_front make_room
make_room-read_idx s b = omega arith

-- A text that does not fit before the readable bytes leaves the write index what it was, and
-- afterwards the readable bytes number the old write index less the reserve, for indices below
-- 2^63 and texts below 2^62 bytes.
pub prepend_beyond-readable_size :
    (s : Bytes) (b : Buffer)
    → b.read_idx < length s
    → b.write_idx < 2 ^ 63
    → length s < 2 ^ 62
    → ((prepend s b).write_idx ≡ b.write_idx)
      × (readable_size (prepend s b) ≡ b.write_idx - prependable)
unfolding readable_size put_front make_room
prepend_beyond-readable_size s b beyond small short =
    let made = prepend-make_room s b beyond in
    let kept = make_room-write_idx (length s) b small short in
    let written : (prepend s b).write_idx ≡ b.write_idx = ap (λ c. c.write_idx) made ∙ kept in
    let read : (prepend s b).read_idx ≡ prependable =
      ap (λ c. c.read_idx) made ∙ make_room-read_idx s b in
    (written, omega (arith, written, read))
