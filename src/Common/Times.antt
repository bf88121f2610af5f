-- ===== src/Common/Times.antt =====
-- Go's `time.Time` as the nanoseconds since its zero value, and `time.Duration` as nanoseconds.
-- Times before the zero value, and sums past the range of `time.Time`, are not represented.
use Prim.Native.Nat.{ℕ, ◌*◌}
use mathlib.Core.Bool.{Bool}
use ano_pki_community.Common.Tests.{ltb, eqb}

abbrev pub Time : Type 0
Time = ℕ

abbrev pub Duration : Type 0
Duration = ℕ

abbrev pub zero_time : Time
zero_time = 0

abbrev pub is_zero_time : Time → Bool
is_zero_time t = eqb t 0

-- t.Before(u), t.After(u), t.Equal(u).
abbrev pub before : Time → Time → Bool
before t u = ltb t u

abbrev pub after : Time → Time → Bool
after t u = ltb u t

abbrev pub equal : Time → Time → Bool
equal t u = eqb t u

abbrev pub second : Duration
second = 1_000_000_000

abbrev pub minute : Duration
minute = 60 * second

abbrev pub hour : Duration
hour = 60 * minute
