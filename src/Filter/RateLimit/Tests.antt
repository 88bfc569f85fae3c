-- ===== src/Filter/RateLimit/Tests.antt =====
-- Runs of the rate limiter, and its theorems at a small limiter.
use api_gateway.Prelude.{
  ◌+◌, ◌*◌, ◌≤◌, ◌≡◌, refl, some, [], ◌∷◌, bytes, replicate, arith, find_char, text_eq,
}
use api_gateway.Prelude.Map.{lookup, insert}
use api_gateway.Http.Text.{is_blank, drop_while}
use api_gateway.Http.Request.{HttpRequest, empty_request}
use api_gateway.Filter.RateLimit.{
  token, RateLimitFilter, extract_client_ip, handle, refill, cleanup_expired_buckets,
}
use api_gateway.Filter.RateLimit.Bound.{admissions, admissions-le, burst_exact}
use api_gateway.Filter.RateLimit.Cleanup.{cleanup_unnoticed}

abbrev limiter : RateLimitFilter
limiter = record { rate = 100; burst = 2; token_buckets = [] }

abbrev used : RateLimitFilter
used = record limiter {
  token_buckets = (bytes "a", record { tokens = 5; last_fill_time = 7 }) ∷ [];
}

abbrev forwarded : HttpRequest
forwarded = record empty_request {
  headers = (bytes "x-forwarded-for", bytes " 10.0.0.1 , 10.0.0.2") ∷ [];
}

first_address : extract_client_ip (some forwarded) ≡ bytes "10.0.0.1"
unfolding extract_client_ip lookup find_char is_blank drop_while text_eq
first_address = refl

third_is_refused : admissions (bytes "a") (replicate 3 (7, bytes "a")) limiter ≡ 2
unfolding handle refill lookup insert text_eq
third_is_refused = refl

admissions-le_example :
    admissions (bytes "a") ((8, bytes "a") ∷ (9, bytes "b") ∷ []) used * token
    ≤ 2 * token + 20 * 100
admissions-le_example =
    admissions-le (bytes "a") ((8, bytes "a") ∷ (9, bytes "b") ∷ []) used 0 20 (omega arith)
      (λ e. cc e) (omega arith)

burst_exact_example : admissions (bytes "a") (replicate 5 (7, bytes "a")) limiter ≡ 2
unfolding lookup
burst_exact_example = burst_exact 7 (bytes "a") 5 limiter (omega arith) (λ e. cc e) refl

cleanup_unnoticed_example :
    (handle 400_000_000_000 (bytes "a") (cleanup_expired_buckets 300_000_000_008 300 used)).1
    ≡ (handle 400_000_000_000 (bytes "a") used).1
unfolding lookup
cleanup_unnoticed_example =
    cleanup_unnoticed 300_000_000_008 400_000_000_000 300 (bytes "a") used (omega arith)
      (omega arith) (λ e. cc e) (omega arith) (refl, tt)
