-- ===== src/Filter/RateLimit.antt =====
-- The rate limiter, src/filter/rate_limit_filter.cpp. The source counts tokens in `double`; here
-- a token is 10^9 units, so that a nanosecond adds exactly `rate` units, and rounding is left out.
-- `steady_clock::now()` is an argument, in nanoseconds. `rate` and `burst` are not negative.
pub mod Bound
pub mod Cleanup
mod Tests
use mathlib.Core.List.{reverse}
use api_gateway.Prelude.{
  ℕ, ◌+◌, ◌-◌, ◌*◌, Bool, true, false, ◌&&◌, ◌||◌, Option, none, some, List, [], ◌∷◌, Bytes, bytes,
  take, is_empty, ltb, leb, ◌==◌, if◌then◌else◌, find_char,
}
use api_gateway.Prelude.Map.{bytes_key, lookup, insert}
use api_gateway.Http.Text.{is_blank, drop_while}
use api_gateway.Http.Request.{HttpRequest}

abbrev pub token : ℕ
token = 1_000_000_000

pub record TokenBucket : Type 0 where
  pub tokens : ℕ
  pub last_fill_time : ℕ

pub record RateLimitFilter : Type 0 where
  pub rate : ℕ
  pub burst : ℕ
  pub token_buckets : List (Bytes × TokenBucket)

-- `ip.substr(start, end - start + 1)` between the first and the last character that is no blank;
-- a text of blanks is left as it is.
unfoldable pub trim : Bytes → Bytes
unfolding drop_while
trim ip =
    if is_empty (drop_while is_blank ip)
    then ip
    else reverse (drop_while is_blank (reverse (drop_while is_blank ip)))

first_item : Bytes → Bytes
first_item val = elim (find_char b',' val) [ none ↦ val | some comma ↦ take comma val ]

client_ip_of : HttpRequest → Bytes
unfolding trim first_item
client_ip_of req = elim (lookup (bytes "x-forwarded-for") req.headers) [
  | some val ↦ trim (first_item val)
  | none ↦ elim (lookup (bytes "x-real-ip") req.headers) [ some ip ↦ ip | none ↦ [] ]
]

unfoldable pub extract_client_ip : Option HttpRequest → Bytes
unfolding client_ip_of
extract_client_ip none = []
extract_client_ip (some req) = client_ip_of req

-- The bucket of a key, made full when the key is new.
unfoldable pub bucket_of : ℕ → ℕ → Option TokenBucket → TokenBucket
bucket_of now burst none = record { tokens = burst * token; last_fill_time = now }
bucket_of now burst (some b) = b

unfoldable pub refill : ℕ → ℕ → ℕ → TokenBucket → TokenBucket
refill now rate burst b =
    let filled = b.tokens + (now - b.last_fill_time) * rate in
    record {
      tokens = if ltb (burst * token) filled then burst * token else filled;
      last_fill_time = now;
    }

unfoldable pub spend : TokenBucket → TokenBucket × Bool
spend b = if leb token b.tokens then (record b { tokens = b.tokens - token }, true) else (b, false)

unfoldable pub store_bucket : Bytes → TokenBucket × Bool → RateLimitFilter → RateLimitFilter × Bool
store_bucket key r f = (record f { token_buckets = insert key r.0 f.token_buckets }, r.1)

-- `on_request` from the key on.
unfoldable pub handle : ℕ → Bytes → RateLimitFilter → RateLimitFilter × Bool
unfolding bucket_of spend store_bucket
handle now key f =
    if f.rate == 0 || is_empty key
    then (f, true)
    else store_bucket key
        (spend (refill now f.rate f.burst (bucket_of now f.burst (lookup key f.token_buckets)))) f

-- The key extractor is the configured one, `extract_client_ip` at first.
unfoldable pub on_request :
    (Option HttpRequest → Bytes) → ℕ → Option HttpRequest → RateLimitFilter → RateLimitFilter × Bool
unfolding handle
on_request key_extractor now req f = handle now (key_extractor req) f

unfoldable pub keep_bucket : ℕ → ℕ → TokenBucket → Bool
keep_bucket now idle_sec b = leb (now - b.last_fill_time) (idle_sec * 1_000_000_000)

unfoldable pub kept_buckets : ℕ → ℕ → List (Bytes × TokenBucket) → List (Bytes × TokenBucket)
unfolding keep_bucket
kept_buckets now idle_sec [] = []
kept_buckets now idle_sec ((k, b) ∷ m) =
    if keep_bucket now idle_sec b
    then (k, b) ∷ kept_buckets now idle_sec m
    else kept_buckets now idle_sec m

unfoldable pub cleanup_expired_buckets : ℕ → ℕ → RateLimitFilter → RateLimitFilter
unfolding kept_buckets
cleanup_expired_buckets now idle_sec f = record f {
  token_buckets = kept_buckets now idle_sec f.token_buckets;
}
