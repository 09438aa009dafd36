-- ===== src/Domain/Money.antt =====
-- internal/domain/money.go: Gripe's fee, on int64.
pub mod Rounding
use gripe.Common.{ℕ, ◌+◌, ◌%◌, ◌*◌, Bool, ltb, eqb, if◌then◌else◌}
use gripe.Int.{ℤ, pos, ltb_ℤ, eqb_ℤ}
use gripe.Int.Word.{mul64, add64, quot, rem}

abbrev pub fee_basis_points : ℕ
fee_basis_points = 300

-- The cases of the `switch`, on the quotient and the remainder.
unfoldable pub div_half_even : ℤ → ℕ → ℤ
div_half_even n d =
    let q = quot n d in
    let r2 = mul64 (rem n d) 2 in
    if ltb_ℤ r2 (pos d)
    then q
    else if ltb_ℤ (pos d) r2
    then add64 q (pos 1)
    else if eqb_ℤ (rem q 2) (pos 0)
    then q
    else add64 q (pos 1)

unfoldable pub gripe_fee : ℤ → ℤ
unfolding div_half_even
gripe_fee amount = div_half_even (mul64 amount fee_basis_points) 10000
