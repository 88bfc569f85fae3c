-- ===== src/Filter/RateLimit/Bound.antt =====
-- How many requests of one client the limiter lets through.
use api_gateway.Prelude.{
  Bool-cases, inr, inl, Option-cases, ℕ, zero, suc, ◌+◌, ◌-◌, ◌*◌, ◌≤◌, ◌<◌, ◌≡◌, ◌≢◌, refl, ap,
  false, ◌&&◌, Option, none, some, List, [], ◌∷◌, Bytes, is_empty, leb, min, if◌then◌else◌, text_eq,
  text_eq_iff, arith, replicate,
}
use native.Mathlib.Nat.{mul-le-mul_right}
use api_gateway.Prelude.Map.{bytes_key, lookup, insert, lookup-insert, lookup-insert_self}
use api_gateway.Filter.RateLimit.{token, TokenBucket, RateLimitFilter, handle, refill, bucket_of}

-- The units in a bucket at a time, refilled up to that time and capped; a missing one is full.
abbrev pub bucket_level : ℕ → ℕ → ℕ → Option TokenBucket → ℕ
bucket_level now rate burst none = burst * token
bucket_level now rate burst (some b) =
    min (burst * token) (b.tokens + (now - b.last_fill_time) * rate)

abbrev pub level : ℕ → Bytes → RateLimitFilter → ℕ
level now key f = bucket_level now f.rate f.burst (lookup key f.token_buckets)

-- Time order, from a start to an end.
abbrev pub Ordered : ℕ → List (ℕ × Bytes) → ℕ → Type 0
Ordered t [] u = t ≤ u
Ordered t ((s, k) ∷ es) u = (t ≤ s) × Ordered s es u

-- How many of a sequence of timed requests are let through, of those that have the given key.
abbrev pub admissions : Bytes → List (ℕ × Bytes) → RateLimitFilter → ℕ
admissions key [] f = 0
admissions key ((t, k) ∷ es) f =
    (if text_eq k key && (handle t k f).1 then 1 else 0) + admissions key es (handle t k f).0

nonempty : (key : Bytes) → key ≢ [] → is_empty key ≡ false
nonempty [] h = absurd (h refl)
nonempty (c ∷ cs) h = refl

no_time : (now rate : ℕ) → (now - now) * rate ≡ 0
no_time now rate = grind arith

abbrev refilled : ℕ → Bytes → RateLimitFilter → TokenBucket
refilled now key f = refill now f.rate f.burst (bucket_of now f.burst (lookup key f.token_buckets))

refilled-level :
    (now : ℕ) (key : Bytes) (f : RateLimitFilter)
    → ((refilled now key f).tokens ≡ level now key f) × ((refilled now key f).last_fill_time ≡ now)
unfolding refill bucket_of
refilled-level now key f = ground (arith, no_time now f.rate)

stored_level :
    (now : ℕ) (key : Bytes) (b : TokenBucket) (f : RateLimitFilter)
    → b.tokens ≤ f.burst * token
    → b.last_fill_time ≡ now
    → level now key (record f { token_buckets = insert key b f.token_buckets }) ≡ b.tokens
stored_level now key b f h e = rw lookup-insert_self (ground (arith, no_time now f.rate))

level-le : (now : ℕ) (key : Bytes) (f : RateLimitFilter) → level now key f ≤ f.burst * token
level-le now key f = ground arith

-- A request with the key spends a token exactly if one is there.
pub handle-level :
    (now : ℕ) (key : Bytes) (f : RateLimitFilter)
    → 0 < f.rate
    → key ≢ []
    → ((handle now key f).1 ≡ leb token (level now key f))
      × (level now key (handle now key f).0
          ≡ level now key f - (if leb token (level now key f) then token else 0))
unfolding handle
handle-level now key f r k =
    let b = refilled now key f in
    let (tokens, time) = refilled-level now key f in
    ground (
      arith,
      nonempty key k,
      level-le now key f,
      stored_level now key b f,
      stored_level now key (record b { tokens = b.tokens - token }) f,
    )

-- A request with another key leaves the level alone.
handle-level_ne :
    (now s : ℕ) (key k : Bytes) (f : RateLimitFilter)
    → text_eq k key ≡ false
    → level s key (handle now k f).0 ≡ level s key f
unfolding handle
handle-level_ne now s key k f h =
    let b = refilled now k f in
    ground (
      arith,
      lookup-insert k key b f.token_buckets,
      lookup-insert k key (record b { tokens = b.tokens - token }) f.token_buckets,
    )

handle_keeps :
    (now : ℕ) (k : Bytes) (f : RateLimitFilter)
    → ((handle now k f).0.rate ≡ f.rate) × ((handle now k f).0.burst ≡ f.burst)
unfolding handle
handle_keeps now k f = ground arith

mul_split : (t s last rate : ℕ) → (s - last) * rate ≤ (s - t) * rate + (t - last) * rate
mul_split t s last rate =
    let sum : s - last ≤ (s - t) + (t - last) = omega arith in
    omega (arith, mul-le-mul_right rate sum)

-- In a time the level rises by no more than the rate allows.
level_rises :
    (t s : ℕ) (key : Bytes) (f : RateLimitFilter) → level s key f ≤ level t key f + (s - t) * f.rate
level_rises t s key f = elim (Option-cases (lookup key f.token_buckets)) [
  | inl e ↦ rw e (omega arith)
  | inr (b, e) ↦ rw e (omega (arith, mul_split t s b.last_fill_time f.rate))
]

-- The units that one request of the sequence takes from the key's bucket.
spent_by : (t : ℕ) (key k : Bytes) (f : RateLimitFilter) → ℕ
spent_by t key k f = (if text_eq k key && (handle t k f).1 then 1 else 0) * token

handle_pays :
    (t : ℕ) (key k : Bytes) (f : RateLimitFilter)
    → 0 < f.rate
    → key ≢ []
    → level t key (handle t k f).0 + spent_by t key k f ≤ level t key f
unfolding spent_by
handle_pays t key k f r n = elim (Bool-cases (text_eq k key)) [
  | inl same ↦
      rw ((text_eq_iff k key).0 same)
        (ground (arith, text_eq_iff key key, handle-level t key f r n))
  | inr other ↦ rw other (omega (arith, handle-level_ne t t key k f other))
]

Ordered-le : (t : ℕ) (es : List (ℕ × Bytes)) (u : ℕ) → Ordered t es u → t ≤ u
Ordered-le t [] u o = o
Ordered-le t ((s, k) ∷ es) u (le, o) = omega (arith, Ordered-le s es u o)

time_adds : (t s u rate : ℕ) → t ≤ s → s ≤ u → (s - t) * rate + (u - s) * rate ≡ (u - t) * rate
time_adds t s u rate h k =
    let sum : (s - t) + (u - s) ≡ u - t = omega arith in omega (arith, ap (λ (x : ℕ). x * rate) sum)

-- Potential: what is admitted is paid for by the level at the start and the rate.
admissions_paid :
    (key : Bytes) (es : List (ℕ × Bytes)) (f : RateLimitFilter) (t u : ℕ)
    → 0 < f.rate
    → key ≢ []
    → Ordered t es u
    → admissions key es f * token ≤ level t key f + (u - t) * f.rate
unfolding spent_by
admissions_paid key [] f t u r n o = omega arith
admissions_paid key ((s, k) ∷ es) f t u r n (le, o) =
    let same = handle_keeps s k f in
    let later = admissions_paid key es (handle s k f).0 s u (omega (arith, same.0)) n o in
    omega (
      arith,
      later,
      ap (λ (x : ℕ). (u - s) * x) same.0,
      handle_pays s key k f r n,
      level_rises t s key f,
      time_adds t s u f.rate le (Ordered-le s es u o),
    )

-- With a positive rate and a key that is not empty, in any period with times in order and
-- whatever other clients send, the admitted requests of one client are at most the burst and what
-- the rate gives over the period, whatever the buckets at the start.
pub admissions-le :
    (key : Bytes) (es : List (ℕ × Bytes)) (f : RateLimitFilter) (t u : ℕ)
    → 0 < f.rate
    → key ≢ []
    → Ordered t es u
    → admissions key es f * token ≤ f.burst * token + (u - t) * f.rate
admissions-le key es f t u r n o =
    omega (arith, admissions_paid key es f t u r n o, level-le t key f)

-- A client without a bucket gets exactly its burst at one moment.
burst_from :
    (t : ℕ) (key : Bytes) (m : ℕ) (f : RateLimitFilter)
    → 0 < f.rate
    → key ≢ []
    → (left : ℕ) → level t key f ≡ left * token
    → admissions key (replicate m (t, key)) f ≡ min m left
burst_from t key zero f r n left e = omega arith
burst_from t key (suc m) f r n left e =
    let (ok, rest) = handle-level t key f r n in
    let same = handle_keeps t key f in
    elim (Bool-cases (leb token (level t key f))) [
      | inl some_left ↦
          let ih =
            burst_from t key m (handle t key f).0 (omega (arith, same.0)) n (left - 1)
              (ground (arith, rest)) in
          ground (arith, ih, text_eq_iff key key)
      | inr empty ↦
          let ih =
            burst_from t key m (handle t key f).0 (omega (arith, same.0)) n left
              (ground (arith, rest)) in
          ground (arith, ih, text_eq_iff key key)
    ]

-- With a positive rate, a client with a key that is not empty and no bucket yet gets through, at
-- one moment, exactly as many requests as the burst allows.
pub burst_exact :
    (t : ℕ) (key : Bytes) (m : ℕ) (f : RateLimitFilter)
    → 0 < f.rate
    → key ≢ []
    → lookup key f.token_buckets ≡ none
    → admissions key (replicate m (t, key)) f ≡ min m f.burst
burst_exact t key m f r n e = burst_from t key m f r n f.burst (rw e)
