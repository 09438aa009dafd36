-- ===== src/Domain/Equality.antt =====
-- The equality tests of the enumerations decide equality.
use gripe.Common.{◌≡◌, refl, ap, true, ◌↔◌, arith, eq_iff, eq_refl}
use gripe.Domain.{Currency, usd, gbp, eur, currency_eq, PaymentStatus, status_eq}

pub currency_eq_refl : (c : Currency) → currency_eq c c ≡ true
unfolding currency_eq
currency_eq_refl usd = refl
currency_eq_refl gbp = refl
currency_eq_refl eur = refl
currency_eq_refl (Currency.other s) = eq_refl s

pub eq_of_currency_eq : (a b : Currency) → currency_eq a b ≡ true → a ≡ b
unfolding currency_eq
eq_of_currency_eq usd b h = ground arith
eq_of_currency_eq gbp b h = ground arith
eq_of_currency_eq eur b h = ground arith
eq_of_currency_eq (Currency.other s) (Currency.other t) h = ap Currency.other ((eq_iff s t).0 h)
eq_of_currency_eq (Currency.other s) b h = ground arith

pub currency_eq_iff : (a b : Currency) → (currency_eq a b ≡ true) ↔ (a ≡ b)
currency_eq_iff a b = (eq_of_currency_eq a b, λ e. rw e (currency_eq_refl b))

pub eq_of_status_eq : (a b : PaymentStatus) → status_eq a b ≡ true → a ≡ b
eq_of_status_eq a b h = ground arith
