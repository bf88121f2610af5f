-- ===== src/Http/RateLimits/Windows.antt =====
-- server.go: how many requests pass in a window.
use ano_pki_community.Common.{
  String, ℕ, min, length, ◌+◌, ◌-◌, ◌≡◌, ◌≢◌, ◌<◌, arith, Bool-cases, inl, inr, List, [], ◌∷◌, All,
  refl, ◌≤◌, Option, none, some, GoMap, lookup, insert, lookup-insert, lookup-insert_self, eq_iff,
  leb, Time, Result, ok, err,
}
use ano_pki_community.Http.RateLimits.{AcmeRateBucket, RateConfig, check_rate, current_bucket}

abbrev passed : Result (Unit {0}) → ℕ
passed (ok u) = 1
passed (err x) = 0

-- How many of the requests under a key, each at a time, pass.
abbrev pub passed_of : RateConfig → String → List Time → GoMap AcmeRateBucket → ℕ
passed_of config key [] rates = 0
passed_of config key (now ∷ times) rates =
    let (result, rates') = check_rate config now key rates in
    passed result + passed_of config key times rates'

-- Inside the window of the bucket that is stored, the bucket is taken as it is.
current-stored :
    (config : RateConfig) (now : Time) (key : String) (rates : GoMap AcmeRateBucket)
    (b : AcmeRateBucket)
    → lookup key rates ≡ some b
    → now < b.reset_at
    → current_bucket config now key rates ≡ b
current-stored config now key rates b found l = rw found (ground arith)

-- A request at a time begins a window: there is no bucket, or the one that is stored ends by then.
abbrev pub BeginsWindow : Time → Option AcmeRateBucket → Type 0
BeginsWindow start none = Unit {0}
BeginsWindow start (some b) = b.reset_at ≤ start

current-fresh :
    (config : RateConfig) (start : Time) (key : String) (rates : GoMap AcmeRateBucket)
    (stored : Option AcmeRateBucket)
    → lookup key rates ≡ stored
    → BeginsWindow start stored
    → current_bucket config start key rates
      ≡ record { count = 0; reset_at = start + config.rate_limit_window }
current-fresh config start key rates none found b = rw found refl
current-fresh config start key rates (some bucket) found b = rw found (ground arith)

passed-left :
    (config : RateConfig) (key : String) (times : List Time) (rates : GoMap AcmeRateBucket)
    (b : AcmeRateBucket)
    → lookup key rates ≡ some b
    → All (λ now. now < b.reset_at) times
    → passed_of config key times rates ≡ min (length times) (config.rate_limit - b.count)
unfolding check_rate
passed-left config key [] rates b found within = omega arith
passed-left config key (now ∷ times) rates b found within =
    elim (Bool-cases (leb config.rate_limit b.count)) [
      | inl full ↦
          let rest =
            passed-left config key times (insert key b rates) b (lookup-insert_self key b rates)
              within.1 in
          rw (current-stored config now key rates b found within.0, full) (ground (arith, rest))
      | inr room ↦
          let next : AcmeRateBucket = record b { count = b.count + 1 } in
          let rest =
            passed-left config key times (insert key next rates) next
              (lookup-insert_self key next rates) within.1 in
          rw (current-stored config now key rates b found within.0, room) (ground (arith, rest))
    ]

-- Of the requests of one client and class from one that begins a window up to its end, as many pass as
-- the limit says, and no more, or all of them if they are fewer. It begins a window if no bucket
-- is stored for them, or one that ends by its time.
pub rate_limit_window_exact :
    (config : RateConfig) (key : String) (start : Time) (times : List Time)
    (rates : GoMap AcmeRateBucket)
    → BeginsWindow start (lookup key rates)
    → All (λ now. now < start + config.rate_limit_window) times
    → passed_of config key (start ∷ times) rates ≡ min (length times + 1) config.rate_limit
unfolding check_rate
rate_limit_window_exact config key start times rates begins within =
    let fresh = current-fresh config start key rates _ refl begins in
    let b : AcmeRateBucket = record { count = 0; reset_at = start + config.rate_limit_window } in
    elim (Bool-cases (leb config.rate_limit 0)) [
      | inl full ↦
          let rest =
            passed-left config key times (insert key b rates) b (lookup-insert_self key b rates)
              within in
          rw (fresh, full) (ground (arith, rest))
      | inr room ↦
          let next : AcmeRateBucket = record b { count = 1 } in
          let rest =
            passed-left config key times (insert key next rates) next
              (lookup-insert_self key next rates) within in
          rw (fresh, room) (ground (arith, rest))
    ]

-- A request leaves the buckets of all other keys as they are.
pub check_rate-others :
    (config : RateConfig) (now : Time) (key other : String) (rates : GoMap AcmeRateBucket)
    → key ≢ other
    → lookup other (check_rate config now key rates).1 ≡ lookup other rates
unfolding check_rate
check_rate-others config now key other rates d =
    let bucket = current_bucket config now key rates in
    elim (Bool-cases (leb config.rate_limit bucket.count)) [
      | inl full ↦ rw full (ground (arith, lookup-insert key other bucket rates, eq_iff key other))
      | inr room ↦ rw room (
          ground (
            arith,
            lookup-insert key other (record bucket { count = bucket.count + 1 }) rates,
            eq_iff key other,
          ))
    ]
