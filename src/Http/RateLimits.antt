-- ===== src/Http/RateLimits.antt =====
-- httpapi/server.go: the rate limit of the ACME protocol's endpoints. Paths are classified by
-- strings.HasPrefix and strings.HasSuffix; the latter is an argument. The mutex makes a check one step.
pub mod Windows
use text.Mathlib.Text.{starts_with}
use ano_pki_community.Common.{
  String, ℕ, ◌+◌, ◌==◌, ◌&&◌, ◌||◌, Bool, true, false, not, Option, none, some, GoMap, lookup,
  insert, leb, if◌then◌else◌, Time, Duration, zero_time, is_zero_time, after, Result, ok, err,
  Error,
}

pub record AcmeRateBucket : Type 0 where
  pub count : ℕ
  pub reset_at : Time

-- s.acme's limit and window.
pub record RateConfig : Type 0 where
  pub rate_limit : ℕ
  pub rate_limit_window : Duration

module _ (has_suffix : String → String → Bool) where
  unfoldable pub is_rate_limited_acme_protocol_endpoint : String → String → Bool
  is_rate_limited_acme_protocol_endpoint method path =
      method == "POST"
      && (path == "/acme/new-account"
          || path == "/acme/new-order"
          || path == "/acme/key-change"
          || starts_with path "/acme/challenge/"
          || (starts_with path "/acme/order/" && has_suffix path "/finalize"))

  unfoldable pub acme_rate_limit_class : String → String
  acme_rate_limit_class path =
      if path == "/acme/new-account"
      then "account"
      else if path == "/acme/new-order"
      then "order"
      else if path == "/acme/key-change"
      then "account"
      else if starts_with path "/acme/challenge/"
      then "challenge"
      else if starts_with path "/acme/order/" && has_suffix path "/finalize"
      then "finalize"
      else path

-- A missing key reads as the zero bucket.
abbrev bucket_or_zero : Option AcmeRateBucket → AcmeRateBucket
bucket_or_zero none = record { count = 0; reset_at = zero_time }
bucket_or_zero (some bucket) = bucket

-- The bucket of a key as the check finds it, begun again when its window is over.
abbrev pub current_bucket : RateConfig → Time → String → GoMap AcmeRateBucket → AcmeRateBucket
current_bucket config now key rates =
    let bucket = bucket_or_zero (lookup key rates) in
    if is_zero_time bucket.reset_at || not (after bucket.reset_at now)
    then record { count = 0; reset_at = now + config.rate_limit_window }
    else bucket

-- The locked part of checkACMERateLimit, for the key of a client and a class.
unfoldable pub check_rate :
    RateConfig → Time → String → GoMap AcmeRateBucket → Result (Unit {0}) × GoMap AcmeRateBucket
check_rate config now key rates =
    let bucket = current_bucket config now key rates in
    if leb config.rate_limit bucket.count
    then (err Error.rate_limited, insert key bucket rates)
    else (ok tt, insert key (record bucket { count = bucket.count + 1 }) rates)
