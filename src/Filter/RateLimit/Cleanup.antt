-- ===== src/Filter/RateLimit/Cleanup.antt =====
-- Dropping idle buckets is not seen by any client, if the idle time fills a bucket.
use api_gateway.Prelude.{
  sym, ℕ, ◌-◌, ◌*◌, ◌≤◌, ◌<◌, ◌≡◌, ◌≢◌, refl, ap, ◌∙◌, Option, none, some, List, [], ◌∷◌, Bytes,
  leb, if◌then◌else◌, text_eq_iff, arith, inl, inr, Bool-cases,
}
use native.Mathlib.Nat.{mul-le-mul_right}
use api_gateway.Prelude.Map.{bytes_key, lookup}
use api_gateway.Filter.RateLimit.{
  token, TokenBucket, RateLimitFilter, handle, keep_bucket, kept_buckets, cleanup_expired_buckets,
}
use api_gateway.Filter.RateLimit.Bound.{bucket_level, level, handle-level}

-- Each key stands once, as in a map.
abbrev pub HasDistinctKeys : List (Bytes × TokenBucket) → Type 0
HasDistinctKeys [] = Unit {0}
HasDistinctKeys ((k, b) ∷ m) = (lookup k m ≡ none) × HasDistinctKeys m

lookup_kept_none :
    (now idle : ℕ) (key : Bytes) (m : List (Bytes × TokenBucket))
    → lookup key m ≡ none
    → lookup key (kept_buckets now idle m) ≡ none
unfolding kept_buckets lookup
lookup_kept_none now idle key [] h = refl
lookup_kept_none now idle key ((k, b) ∷ m) h = ground (arith, lookup_kept_none now idle key m)

abbrev survivor : ℕ → ℕ → Option TokenBucket → Option TokenBucket
survivor now idle none = none
survivor now idle (some b) = if keep_bucket now idle b then some b else none

lookup_kept :
    (now idle : ℕ) (key : Bytes) (m : List (Bytes × TokenBucket))
    → HasDistinctKeys m
    → lookup key (kept_buckets now idle m) ≡ survivor now idle (lookup key m)
unfolding kept_buckets lookup
lookup_kept now idle key [] d = refl
lookup_kept now idle key ((k, b) ∷ m) d =
    ground
      (arith, lookup_kept now idle key m d.1, lookup_kept_none now idle key m, text_eq_iff k key)

-- A bucket that was idle for too long is full again.
survivor-level :
    (now later idle rate burst : ℕ) (o : Option TokenBucket)
    → now ≤ later
    → burst ≤ idle * rate
    → bucket_level later rate burst (survivor now idle o) ≡ bucket_level later rate burst o
unfolding keep_bucket
survivor-level now later idle rate burst none h fill = refl
survivor-level now later idle rate burst (some b) h fill =
    elim (Bool-cases (keep_bucket now idle b)) [
      | inl kept ↦ rw kept
      | inr dropped ↦
          let long : idle * token ≤ later - b.last_fill_time = ground arith in
          let gained = mul-le-mul_right rate long in
          let full = mul-le-mul_right token fill in rw dropped (omega (arith, gained, full))
    ]

-- With a positive rate, distinct keys and an idle time that fills the burst, cleaning up does not
-- change whether a request with a key that is not empty is let through at any later time.
pub cleanup_unnoticed :
    (now later idle : ℕ) (key : Bytes) (f : RateLimitFilter)
    → now ≤ later
    → 0 < f.rate
    → key ≢ []
    → f.burst ≤ idle * f.rate
    → HasDistinctKeys f.token_buckets
    → (handle later key (cleanup_expired_buckets now idle f)).1 ≡ (handle later key f).1
unfolding cleanup_expired_buckets
cleanup_unnoticed now later idle key f h r n fill d =
    let g = cleanup_expired_buckets now idle f in
    let same : level later key g ≡ level later key f =
      ap (bucket_level later f.rate f.burst) (lookup_kept now idle key f.token_buckets d)
      ∙ survivor-level now later idle f.rate f.burst (lookup key f.token_buckets) h fill in
    (handle-level later key g r n).0 ∙ ap (leb token) same ∙ sym (handle-level later key f r n).0
