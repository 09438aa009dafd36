-- ===== src/Domain/Money/Rounding.antt =====
-- internal/domain/money.go: the fee against 3% of the amount, where amount * 300 fits in int64 and
-- where it does not.
use gripe.Common.{
  ℕ, zero, suc, true, ◌+◌, ◌-◌, ◌*◌, ◌/◌, ◌%◌, ◌^◌, ◌≤◌, ◌<◌, ◌≡◌, arith, ltb, if◌then◌else◌,
}
use gripe.Int.{pos, sub_ℕ, negsuc, ◌<ℤ◌, ltb_ℤ}
use gripe.Int.Word.{mul64, quot, rem, wrap, scale, wrap_pos, wrap_high, add64-pos}
use gripe.Domain.Money.{div_half_even, gripe_fee}

-- Half-even rounding of n / d, over the natural numbers.
abbrev pub round_half_even : ℕ → ℕ → ℕ
round_half_even n d =
    let q = n / d in
    let r = n % d in if ltb (2 * r) d then q else if ltb d (2 * r) then q + 1 else q + q % 2

-- The largest amount whose product with 300 fits.
abbrev pub fee_limit : ℕ
fee_limit = (2 ^ 63 - 1) / 300

pub div_half_even-pos :
    (n : ℕ) → n < 2 ^ 63 → div_half_even (pos n) 10000 ≡ pos (round_half_even n 10000)
unfolding div_half_even quot rem mul64 scale
div_half_even-pos n h =
    rw (wrap_pos (n % 10000 * 2) (omega arith), add64-pos (n / 10000) 1 (omega arith))
      (ground arith)

pub gripe_fee-pos :
    (a : ℕ) → a ≤ fee_limit → gripe_fee (pos a) ≡ pos (round_half_even (a * 300) 10000)
unfolding gripe_fee mul64 scale
gripe_fee-pos a h =
    rw (wrap_pos (a * 300) (omega arith)) (div_half_even-pos (a * 300) (omega arith))

-- What half-even rounding of a * 300 / 10000 means, by inequalities alone.
pub record IsNearestFee (a n : ℕ) : Type 0 where
  pub not_below : a * 600 ≤ n * 20000 + 10000
  pub not_above : n * 20000 ≤ a * 600 + 10000
  pub even_if_low : a * 600 ≡ n * 20000 + 10000 → n % 2 ≡ 0
  pub even_if_high : n * 20000 ≡ a * 600 + 10000 → n % 2 ≡ 0

round_half_even-IsNearestFee : (a : ℕ) → IsNearestFee a (round_half_even (a * 300) 10000)
round_half_even-IsNearestFee a = record {
  not_below = ground arith;
  not_above = ground arith;
  even_if_low = λ h. ground arith;
  even_if_high = λ h. ground arith;
}

-- For every amount from 0 to (2^63 - 1) / 300, the fee is a number n at most the amount, whose
-- distance from 3% of the amount is at most half a minor unit, and which is even where the distance
-- is exactly half.
pub gripe_fee-nearest :
    (a : ℕ) → a ≤ fee_limit → (n : ℕ) × (gripe_fee (pos a) ≡ pos n) × IsNearestFee a n × (n ≤ a)
gripe_fee-nearest a h = (
  round_half_even (a * 300) 10000,
  gripe_fee-pos a h,
  round_half_even-IsNearestFee a,
  ground arith,
)

doubled_rem-lt : (r d : ℕ) → r < 10000 → 0 < d → ltb_ℤ (mul64 (sub_ℕ 0 r) 2) (pos d) ≡ true
unfolding mul64 scale wrap
doubled_rem-lt zero d h p = ground arith
doubled_rem-lt (suc r) d h p = ground arith

div_half_even-negsuc : (m : ℕ) → div_half_even (negsuc m) 10000 ≡ sub_ℕ 0 (suc m / 10000)
unfolding div_half_even rem quot
div_half_even-negsuc m = rw (doubled_rem-lt (suc m % 10000) 10000 (omega arith) (omega arith))

-- Every amount whose product with 300 lies from 2^63 to below 2^64 - 10000 is charged a negative
-- fee.
pub gripe_fee_overflow :
    (a : ℕ) → 2 ^ 63 ≤ a * 300 → a * 300 < 2 ^ 64 - 10000 → gripe_fee (pos a) <ℤ pos 0
unfolding gripe_fee mul64 scale
gripe_fee_overflow a lo hi =
    rw (wrap_high (a * 300) lo (omega arith), div_half_even-negsuc (2 ^ 64 - 1 - a * 300))
      (ground arith)
