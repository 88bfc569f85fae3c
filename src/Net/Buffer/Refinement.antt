-- ===== src/Net/Buffer/Refinement.antt =====
-- The buffer as the text between its indices.
use api_gateway.Prelude.{
  if-cases, leb, refl, subst, ◌⊎◌, inr, inl, ◌⊎◌, ℕ, ◌+◌, ◌-◌, ◌≤◌, ◌≡◌, ap, ◌∙◌, sym, ◌++◌, Bytes,
  length, take, drop, length-append, length-take, length-drop, append_assoc, arith,
}
use api_gateway.Net.Buffer.{
  replicate, writable_size, ensure_writable, [], min, prependable, shrink, consume_all, consume,
  Buffer, readable, readable_size, overwrite, put,
}
use api_gateway.Prelude.Slices.{
  drop_all, take-append-le, drop-min, drop-drop, drop-append_at, drop-append-le, drop-take,
  take-append_at,
}

pub record IsValid (b : Buffer) : Type 0 where
  pub ordered : b.read_idx ≤ b.write_idx
  pub inside : b.write_idx ≤ length b.buf

pub length-readable : (b : Buffer) → IsValid b → length (readable b) ≡ b.write_idx - b.read_idx
unfolding readable readable_size
length-readable b v = omega (
  arith,
  length-take (b.write_idx - b.read_idx) (drop b.read_idx b.buf),
  length-drop b.read_idx b.buf,
  v.inside,
  v.ordered,
)

pub length-overwrite :
    (i : ℕ) (s buf : Bytes) → i ≤ length buf → length buf ≤ length (overwrite i s buf)
unfolding overwrite
length-overwrite i s buf h = omega (
  arith,
  length-append (take i buf) (s ++ drop (i + length s) buf),
  length-append s (drop (i + length s) buf),
  length-take i buf,
  length-drop (i + length s) buf,
)

overwrite-end : (i : ℕ) (s buf : Bytes) → i ≤ length buf → i + length s ≤ length (overwrite i s buf)
unfolding overwrite
overwrite-end i s buf h = omega (
  arith,
  length-append (take i buf) (s ++ drop (i + length s) buf),
  length-append s (drop (i + length s) buf),
  length-take i buf,
)

-- Bytes put at the write index.
pub put-readable : (s : Bytes) (b : Buffer) → IsValid b → readable (put s b) ≡ readable b ++ s
unfolding readable readable_size put overwrite
put-readable s b v =
    let r = b.read_idx in
    let w = b.write_idx in
    let z = drop (w + length s) b.buf in
    let front = length-take w b.buf in
    let before : drop r (take w b.buf ++ (s ++ z)) ≡ take (w - r) (drop r b.buf) ++ (s ++ z) =
      drop-append-le r (take w b.buf) (s ++ z) (omega (arith, v.ordered, v.inside))
      ∙ ap (λ x. x ++ (s ++ z)) (drop-take r w b.buf) in
    let size : w + length s - r ≡ length (take (w - r) (drop r b.buf) ++ s) = omega (
      arith,
      length-append (take (w - r) (drop r b.buf)) s,
      length-take (w - r) (drop r b.buf),
      length-drop r b.buf,
      v.ordered,
      v.inside,
    ) in
    ap (take (w + length s - r)) before
    ∙ ap (take (w + length s - r)) (sym (append_assoc (take (w - r) (drop r b.buf)) s z))
    ∙ take-append_at (w + length s - r) (take (w - r) (drop r b.buf) ++ s) z size

pub put-IsValid : (s : Bytes) (b : Buffer) → IsValid b → IsValid (put s b)
unfolding put
put-IsValid s b v = record {
  ordered = omega (arith, v.ordered);
  inside = overwrite-end b.write_idx s b.buf v.inside;
}

-- The readable bytes moved to the place behind the reserve.
abbrev pub moved : Buffer → Buffer
moved b = record {
  buf = overwrite prependable (readable b) b.buf;
  read_idx = prependable;
  write_idx = prependable + readable_size b;
}

pub shrink-cases :
    (b : Buffer)
    → (shrink b ≡ b)
      ⊎ (((readable_size b ≡ 0)
            × (shrink b
                ≡ record b { read_idx = prependable; write_idx = prependable + readable_size b }))
          ⊎ (shrink b ≡ moved b))
unfolding shrink
shrink-cases b = ground arith

pub empty-readable : (b : Buffer) → b.write_idx - b.read_idx ≡ 0 → readable b ≡ []
unfolding readable readable_size
empty-readable b e = rw e refl

moved-readable :
    (b : Buffer) → IsValid b → prependable ≤ length b.buf → readable (moved b) ≡ readable b
unfolding readable readable_size overwrite
moved-readable b v room =
    let s = readable b in
    let z = drop (prependable + length s) b.buf in
    let n = b.write_idx - b.read_idx in
    let cut : drop prependable (take prependable b.buf ++ (s ++ z)) ≡ s ++ z =
      drop-append_at prependable (take prependable b.buf) (s ++ z)
        (omega (arith, length-take prependable b.buf, room)) in
    let size : prependable + n - prependable ≡ length s = omega (arith, length-readable b v) in
    ap (take (prependable + n - prependable)) cut
    ∙ take-append_at (prependable + n - prependable) s z size

moved-IsValid : (b : Buffer) → IsValid b → prependable ≤ length b.buf → IsValid (moved b)
unfolding readable_size
moved-IsValid b v room = record {
  ordered = omega arith;
  inside = omega (arith, overwrite-end prependable (readable b) b.buf room, length-readable b v);
}

pub consume-cases :
    (n : ℕ) (b : Buffer)
    → ((b.read_idx + min n (readable_size b) ≡ b.write_idx) × (consume n b ≡ consume_all b))
      ⊎ (consume n b ≡ record b { read_idx = b.read_idx + min n (readable_size b) })
unfolding consume
consume-cases n b = ground arith

advanced-readable :
    (n : ℕ) (b : Buffer) → readable (record b { read_idx = b.read_idx + n }) ≡ drop n (readable b)
unfolding readable readable_size
advanced-readable n b =
    let same : b.write_idx - (b.read_idx + n) ≡ b.write_idx - b.read_idx - n = omega arith in
    ap (λ k. take k (drop (b.read_idx + n) b.buf)) same
    ∙ ap (take (b.write_idx - b.read_idx - n)) (sym (drop-drop n b.read_idx b.buf))
    ∙ sym (drop-take n (b.write_idx - b.read_idx) (drop b.read_idx b.buf))

-- Consuming takes bytes from the front.
pub consume-readable :
    (n : ℕ) (b : Buffer) → IsValid b → readable (consume n b) ≡ drop n (readable b)
unfolding readable_size consume_all
consume-readable n b v =
    let size = length-readable b v in
    let same : drop (min n (b.write_idx - b.read_idx)) (readable b) ≡ drop n (readable b) =
      ap (λ k. drop (min n k) (readable b)) (sym size) ∙ drop-min n (readable b) in
    elim (consume-cases n b) [
      | inl (all, e) ↦
          ap readable e
          ∙ empty-readable (consume_all b) refl
          ∙ sym (
              drop_all (min n (b.write_idx - b.read_idx)) (readable b)
                (omega (arith, all, size, v.ordered)))
          ∙ same
      | inr e ↦ ap readable e ∙ advanced-readable (min n (b.write_idx - b.read_idx)) b ∙ same
    ]

pub consume-IsValid :
    (n : ℕ) (b : Buffer) → IsValid b → prependable ≤ length b.buf → IsValid (consume n b)
unfolding readable_size consume_all
consume-IsValid n b v room = elim (consume-cases n b) [
  | inl (all, e) ↦ subst IsValid (sym e) (record { ordered = omega arith; inside = room })
  | inr e ↦ subst IsValid (sym e) (record { ordered = omega (arith, v.ordered); inside = v.inside })
]

pub shrink-readable :
    (b : Buffer) → IsValid b → prependable ≤ length b.buf → readable (shrink b) ≡ readable b
unfolding readable_size
shrink-readable b v room = elim (shrink-cases b) [
  | inl e ↦ ap readable e
  | inr (inl (none_, e)) ↦
      ap readable e
      ∙ empty-readable
          (record b { read_idx = prependable; write_idx = prependable + readable_size b })
          (omega (arith, none_))
      ∙ sym (empty-readable b none_)
  | inr (inr e) ↦ ap readable e ∙ moved-readable b v room
]

pub shrink-IsValid : (b : Buffer) → IsValid b → prependable ≤ length b.buf → IsValid (shrink b)
unfolding readable_size
shrink-IsValid b v room = elim (shrink-cases b) [
  | inl e ↦ subst IsValid (sym e) v
  | inr (inl (none_, e)) ↦
      subst IsValid (sym e) (record { ordered = omega arith; inside = omega (arith, none_, room) })
  | inr (inr e) ↦ subst IsValid (sym e) (moved-IsValid b v room)
]

unfoldable pub grown : ℕ → Buffer → Buffer
grown n b = record b { buf = b.buf ++ replicate n 0 }

pub ensure_writable-cases :
    (n : ℕ) (b : Buffer)
    → (ensure_writable n b ≡ b)
      ⊎ ((ensure_writable n b ≡ shrink b) ⊎ (ensure_writable n b ≡ grown (n - writable_size b) b))
unfolding ensure_writable grown
ensure_writable-cases n b = elim (if-cases (leb n (writable_size b)) b _) [
  | inl e ↦ inl e
  | inr e ↦ elim (if-cases (leb (n + prependable) (b.read_idx + writable_size b)) (shrink b) _) [
    | inl h ↦ inr (inl (e ∙ h))
    | inr h ↦ inr (inr (e ∙ h))
  ]
]

grown-readable : (n : ℕ) (b : Buffer) → IsValid b → readable (grown n b) ≡ readable b
unfolding readable readable_size grown
grown-readable n b v =
    let z : Bytes = replicate n 0 in
    ap (take (b.write_idx - b.read_idx))
      (drop-append-le b.read_idx b.buf z (omega (arith, v.ordered, v.inside)))
    ∙ take-append-le (b.write_idx - b.read_idx) (drop b.read_idx b.buf) z
        (omega (arith, length-drop b.read_idx b.buf, v.inside, v.ordered))

grown-IsValid : (n : ℕ) (b : Buffer) → IsValid b → IsValid (grown n b)
unfolding grown
grown-IsValid n b v = record {
  ordered = v.ordered;
  inside = omega (arith, length-append b.buf (replicate n 0), v.inside);
}

pub ensure_writable-readable :
    (n : ℕ) (b : Buffer)
    → IsValid b
    → prependable ≤ length b.buf
    → readable (ensure_writable n b) ≡ readable b
ensure_writable-readable n b v room = elim (ensure_writable-cases n b) [
  | inl e ↦ ap readable e
  | inr (inl e) ↦ ap readable e ∙ shrink-readable b v room
  | inr (inr e) ↦ ap readable e ∙ grown-readable (n - writable_size b) b v
]

pub ensure_writable-IsValid :
    (n : ℕ) (b : Buffer) → IsValid b → prependable ≤ length b.buf → IsValid (ensure_writable n b)
ensure_writable-IsValid n b v room = elim (ensure_writable-cases n b) [
  | inl e ↦ subst IsValid (sym e) v
  | inr (inl e) ↦ subst IsValid (sym e) (shrink-IsValid b v room)
  | inr (inr e) ↦ subst IsValid (sym e) (grown-IsValid (n - writable_size b) b v)
]
