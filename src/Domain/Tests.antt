-- ===== src/Domain/Tests.antt =====
-- The fees of internal/domain/money_test.go, and the theorems at inputs that they apply to.
use gripe.Common.{ℕ, ◌≤◌, ◌≡◌, refl, arith, List, [], ◌∷◌}
use gripe.Int.{ℤ, pos, ◌<ℤ◌, ◌+ℤ◌}
use gripe.Int.Word.{mul64, add64, quot, rem, scale, wrap}
use gripe.Domain.Money.{gripe_fee}
use gripe.Domain.Money.Rounding.{IsNearestFee, gripe_fee-nearest, gripe_fee_overflow}

abbrev fees : List ℕ → List ℤ
fees [] = []
fees (a ∷ as') = gripe_fee (pos a) ∷ fees as'

gripe_fee_table :
    fees (10000 ∷ 1000 ∷ 100 ∷ 33 ∷ 16 ∷ 50 ∷ 150 ∷ 250 ∷ 0 ∷ [])
    ≡ pos 300 ∷ pos 30 ∷ pos 3 ∷ pos 1 ∷ pos 0 ∷ pos 2 ∷ pos 4 ∷ pos 8 ∷ pos 0 ∷ []
unfolding gripe_fee mul64 add64 quot rem scale wrap ◌+ℤ◌
gripe_fee_table = refl

gripe_fee-nearest_example : (n : ℕ) × (gripe_fee (pos 150) ≡ pos n) × IsNearestFee 150 n × (n ≤ 150)
gripe_fee-nearest_example = gripe_fee-nearest 150 (omega arith)

gripe_fee_overflow_example : gripe_fee (pos 40000000000000000) <ℤ pos 0
gripe_fee_overflow_example = gripe_fee_overflow 40000000000000000 (omega arith) (omega arith)
