-- ===== src/Int/Word.antt =====
-- int64 arithmetic of Go: every result is wrapped around at 64 bits, and `/` and `%` round towards
-- zero.
use gripe.Common.{ℕ, suc, ◌+◌, ◌-◌, ◌*◌, ◌/◌, ◌%◌, ◌^◌, ◌≤◌, ◌<◌, ◌≡◌, arith, ltb, if◌then◌else◌}
use gripe.Int.{ℤ, pos, negsuc, ◌+ℤ◌, ◌-ℤ◌, sub_ℕ}

abbrev pub word_mod : ℕ
word_mod = 2 ^ 64

abbrev pub max_int : ℕ
max_int = 2 ^ 63 - 1

-- The bit pattern of an integer, and the signed integer of a bit pattern.
to_bits : ℤ → ℕ
to_bits (pos n) = n % word_mod
to_bits (negsuc n) = word_mod - 1 - n % word_mod

of_bits : ℕ → ℤ
of_bits b = if ltb b (2 ^ 63) then pos b else negsuc (word_mod - 1 - b)

unfoldable pub wrap : ℤ → ℤ
unfolding to_bits of_bits
wrap a = of_bits (to_bits a)

-- The product with a number that is not negative, as an integer.
unfoldable pub scale : ℤ → ℕ → ℤ
scale (pos n) k = pos (n * k)
scale (negsuc n) k = sub_ℕ 0 (suc n * k)

-- Truncated division by a positive number.
unfoldable pub quot : ℤ → ℕ → ℤ
quot (pos n) d = pos (n / d)
quot (negsuc n) d = sub_ℕ 0 (suc n / d)

unfoldable pub rem : ℤ → ℕ → ℤ
rem (pos n) d = pos (n % d)
rem (negsuc n) d = sub_ℕ 0 (suc n % d)

-- `a + b`, `a - b`, `a * k` and `-a` on int64.
unfoldable pub add64 : ℤ → ℤ → ℤ
add64 a b = wrap (a +ℤ b)

unfoldable pub sub64 : ℤ → ℤ → ℤ
sub64 a b = wrap (a -ℤ b)

unfoldable pub mul64 : ℤ → ℕ → ℤ
mul64 a k = wrap (scale a k)

unfoldable pub neg64 : ℤ → ℤ
neg64 a = wrap (pos 0 -ℤ a)

pub wrap_pos : (n : ℕ) → n < 2 ^ 63 → wrap (pos n) ≡ pos n
unfolding wrap
wrap_pos n h = ground arith

-- At most 2 ^ 63 below zero nothing is lost either.
pub wrap_negsuc : (n : ℕ) → n < 2 ^ 63 → wrap (negsuc n) ≡ negsuc n
unfolding wrap
wrap_negsuc n h = ground arith

pub wrap_high : (n : ℕ) → 2 ^ 63 ≤ n → n < 2 ^ 64 → wrap (pos n) ≡ negsuc (2 ^ 64 - 1 - n)
unfolding wrap
wrap_high n lo hi = ground arith

pub add64-pos : (a b : ℕ) → a + b < 2 ^ 63 → add64 (pos a) (pos b) ≡ pos (a + b)
unfolding add64 ◌+ℤ◌
add64-pos a b h = ground (arith, wrap_pos (a + b))
