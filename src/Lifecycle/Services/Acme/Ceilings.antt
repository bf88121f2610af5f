-- ===== src/Lifecycle/Services/Acme/Ceilings.antt =====
-- lifecycle/service.go: for how long a validation of a public TLS name may be reused, by the date.
use ano_pki_community.Common.{
  ◌≤◌, ◌*◌, arith, List, [], ◌∷◌, ℕ, if◌then◌else◌, Time, Duration, hour, before,
}

-- time.Date at midnight UTC, by the days since 1 January of the year 1.
abbrev midnight : ℕ → Time
midnight days = days * (24 * hour)

-- 15 March of 2026, of 2027 and of 2029.
abbrev public_tls_validation_reuse_ceiling_schedule : List (Time × Duration)
public_tls_validation_reuse_ceiling_schedule =
    (midnight 739689, 200 * (24 * hour))
    ∷ (midnight 740054, 100 * (24 * hour))
    ∷ (midnight 740785, 10 * (24 * hour))
    ∷ []

-- The loop over the schedule, which keeps the last ceiling that has started.
abbrev last_started : Time → Duration → List (Time × Duration) → Duration
last_started now max_validity [] = max_validity
last_started now max_validity ((start, max) ∷ ceilings) =
    last_started now (if before now start then max_validity else max) ceilings

abbrev first_max : List (Time × Duration) → Duration
first_max [] = 0
first_max ((start, max) ∷ ceilings) = max

unfoldable pub public_tls_validation_reuse_ceiling : Time → Duration
public_tls_validation_reuse_ceiling now =
    last_started now (first_max public_tls_validation_reuse_ceiling_schedule)
      public_tls_validation_reuse_ceiling_schedule

-- The ceiling never rises with time, and is always from 10 to 200 days.
pub public_tls_validation_reuse_ceiling-falls :
    (t u : Time)
    → t ≤ u
    → (public_tls_validation_reuse_ceiling u ≤ public_tls_validation_reuse_ceiling t)
      × (10 * (24 * hour) ≤ public_tls_validation_reuse_ceiling u)
      × (public_tls_validation_reuse_ceiling t ≤ 200 * (24 * hour))
unfolding public_tls_validation_reuse_ceiling
public_tls_validation_reuse_ceiling-falls t u h = ground arith
