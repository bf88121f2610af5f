-- ===== src/Common/Int64.antt =====
-- The int64 values of Go: an integer by its sign, and the increment, which wraps at 2^63 - 1.
use Prim.Native.Nat.{ℕ, zero, suc, ◌+◌, ◌<◌}
use mathlib.Core.Path.{◌≡◌}
use mathlib.Core.Logic.{◌↔◌}
use mathlib.Core.Bool.{Bool, true, false}
use native.Mathlib.Omega.{arith}
use ano_pki_community.Common.Tests.{eqb, ltb, if◌then◌else◌}

-- `negsuc n` is -(n + 1).
pub data ℤ : Type 0 where
  pos : ℕ → ℤ
  negsuc : ℕ → ℤ

abbrev pub max_int64 : ℕ
max_int64 = 9223372036854775807

abbrev pub eq_int64 : ℤ → ℤ → Bool
eq_int64 (pos a) (pos b) = eqb a b
eq_int64 (negsuc a) (negsuc b) = eqb a b
eq_int64 (pos a) (negsuc b) = false
eq_int64 (negsuc a) (pos b) = false

abbrev pub is_negative : ℤ → Bool
is_negative (pos n) = false
is_negative (negsuc n) = true

abbrev pub is_zero : ℤ → Bool
is_zero (pos n) = eqb n 0
is_zero (negsuc n) = false

abbrev pub ltb_int64 : ℤ → ℤ → Bool
ltb_int64 (pos a) (pos b) = ltb a b
ltb_int64 (pos a) (negsuc b) = false
ltb_int64 (negsuc a) (pos b) = true
ltb_int64 (negsuc a) (negsuc b) = ltb b a

-- The order of the integers.
abbrev pub Less : ℤ → ℤ → Type 0
Less (pos a) (pos b) = a < b
Less (pos a) (negsuc b) = ⊥
Less (negsuc a) (pos b) = Unit
Less (negsuc a) (negsuc b) = b < a

unfoldable pub increment : ℤ → ℤ
increment (pos n) = if eqb n max_int64 then negsuc max_int64 else pos (n + 1)
increment (negsuc zero) = pos 0
increment (negsuc (suc n)) = negsuc n

pub eq_int64_iff : (a b : ℤ) → (eq_int64 a b ≡ true) ↔ (a ≡ b)
eq_int64_iff (pos a) (pos b) = ground arith
eq_int64_iff (pos a) (negsuc b) = ground arith
eq_int64_iff (negsuc a) (pos b) = ground arith
eq_int64_iff (negsuc a) (negsuc b) = ground arith

pub increment-pos : (n : ℕ) → n < max_int64 → increment (pos n) ≡ pos (n + 1)
unfolding increment
increment-pos n h = ground arith
