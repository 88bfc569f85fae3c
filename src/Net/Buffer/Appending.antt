-- ===== src/Net/Buffer/Appending.antt =====
-- Buffers with their reserve: what appending and consuming keep.
use api_gateway.Net.Buffer.Refinement.{
  IsValid, put-readable, put-IsValid, consume-IsValid, ensure_writable-readable,
  ensure_writable-IsValid, length-overwrite, shrink-cases, ensure_writable-cases, consume-cases,
  grown,
}
use api_gateway.Prelude.{
  ◌∷◌, append-nil, refl, subst, ◌⊎◌, inr, ◌∷◌, inl, ◌⊎◌, ℕ, ◌-◌, ◌≤◌, ◌≡◌, ap, ◌∙◌, sym, ◌++◌,
  Bytes, length, length-append, arith,
}
use api_gateway.Net.Buffer.{
  append, replicate, writable_size, ensure_writable, [], prependable, shrink, consume_all, consume,
  Buffer, readable, put,
}

-- A vector that has room for the reserve, as every buffer has from its creation on.
pub record IsBuffer (b : Buffer) : Type 0 where
  pub valid : IsValid b
  pub reserve : prependable ≤ length b.buf

append-cases :
    (s : Bytes) (b : Buffer)
    → ((s ≡ []) × (append s b ≡ b)) ⊎ (append s b ≡ put s (ensure_writable (length s) b))
unfolding append
append-cases [] b = inl (refl, refl)
append-cases (c ∷ cs) b = inr refl

-- Appending puts the bytes behind the readable ones, wherever the space for them comes from.
pub append-readable :
    (s : Bytes) (b : Buffer) → IsBuffer b → readable (append s b) ≡ readable b ++ s
append-readable s b h = elim (append-cases s b) [
  | inl (none_, e) ↦ ap readable e ∙ rw none_ (sym (append-nil (readable b)))
  | inr e ↦
      ap readable e
      ∙ put-readable s (ensure_writable (length s) b)
          (ensure_writable-IsValid (length s) b h.valid h.reserve)
      ∙ ap (λ t. t ++ s) (ensure_writable-readable (length s) b h.valid h.reserve)
]

shrink-le : (b : Buffer) → prependable ≤ length b.buf → prependable ≤ length (shrink b).buf
shrink-le b h = elim (shrink-cases b) [
  | inl e ↦ subst (λ c. prependable ≤ length c.buf) (sym e) h
  | inr (inl (none_, e)) ↦ subst (λ c. prependable ≤ length c.buf) (sym e) h
  | inr (inr e) ↦
      subst (λ c. prependable ≤ length c.buf) (sym e)
        (omega (arith, length-overwrite prependable (readable b) b.buf h, h))
]

consume-le :
    (n : ℕ) (b : Buffer) → prependable ≤ length b.buf → prependable ≤ length (consume n b).buf
unfolding consume_all
consume-le n b h = elim (consume-cases n b) [
  | inl (all, e) ↦ subst (λ c. prependable ≤ length c.buf) (sym e) h
  | inr e ↦ subst (λ c. prependable ≤ length c.buf) (sym e) h
]

-- The vector never gets smaller.
ensure_writable-le :
    (n : ℕ) (b : Buffer)
    → prependable ≤ length b.buf
    → prependable ≤ length (ensure_writable n b).buf
unfolding grown
ensure_writable-le n b h = elim (ensure_writable-cases n b) [
  | inl e ↦ subst (λ c. prependable ≤ length c.buf) (sym e) h
  | inr (inl e) ↦ subst (λ c. prependable ≤ length c.buf) (sym e) (shrink-le b h)
  | inr (inr e) ↦
      subst (λ c. prependable ≤ length c.buf) (sym e)
        (omega (arith, length-append b.buf (replicate (n - writable_size b) 0), h))
]

pub put-IsBuffer : (s : Bytes) (b : Buffer) → IsBuffer b → IsBuffer (put s b)
unfolding put
put-IsBuffer s b h = record {
  valid = put-IsValid s b h.valid;
  reserve = omega (arith, length-overwrite b.write_idx s b.buf h.valid.inside, h.reserve);
}

pub append-IsBuffer : (s : Bytes) (b : Buffer) → IsBuffer b → IsBuffer (append s b)
append-IsBuffer s b h = elim (append-cases s b) [
  | inl (none_, e) ↦ subst IsBuffer (sym e) h
  | inr e ↦ subst IsBuffer (sym e) (
      put-IsBuffer s (ensure_writable (length s) b) (record {
        valid = ensure_writable-IsValid (length s) b h.valid h.reserve;
        reserve = ensure_writable-le (length s) b h.reserve;
      }))
]

pub consume-IsBuffer : (n : ℕ) (b : Buffer) → IsBuffer b → IsBuffer (consume n b)
consume-IsBuffer n b h = record {
  valid = consume-IsValid n b h.valid h.reserve;
  reserve = consume-le n b h.reserve;
}
