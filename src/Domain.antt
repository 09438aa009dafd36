-- ===== src/Domain.antt =====
-- internal/domain/domain.go: the enumerations and records that the stores and the API exchange.
-- A Go string type with constants is a data type with one constructor for each constant; where the
-- string comes from a request unchecked, `other` holds any other text. A `time.Time` is the number
-- of nanoseconds since Go's zero time, so `IsZero` is the test for 0.
pub mod Money
pub mod Equality
pub mod Views
pub mod Cadence
pub mod Tests
use gripe.Common.{
  ℕ, ◌*◌, ◌/◌, String, ◌≡◌, Bool, true, false, Option, none, some, List, ◌==◌, eqb, arith,
  if◌then◌else◌,
}
use gripe.Int.{ℤ}

abbrev pub Time : Type 0
Time = ℕ

-- A time that is kept in whole units: the part of a unit is dropped.
abbrev pub cut : ℕ → Time → Time
cut unit t = t / unit * unit

-- In nanoseconds.
abbrev pub millisecond : ℕ
millisecond = 1000000

abbrev pub microsecond : ℕ
microsecond = 1000

abbrev pub is_zero : Time → Bool
is_zero t = eqb t 0

pub data Currency : Type 0 where
  usd gbp eur : Currency
  other : String → Currency

-- `domain.Currency(s)`, and likewise below.
unfoldable pub currency_of : String → Currency
currency_of s =
    if s == "USD"
    then usd
    else if s == "GBP"
    then gbp
    else if s == "EUR"
    then eur
    else Currency.other s

unfoldable pub currency_valid : Currency → Bool
currency_valid (Currency.other s) = false
currency_valid _ = true

pub data PaymentMethod : Type 0 where
  card direct_debit bank_transfer apple_pay google_pay : PaymentMethod
  other : String → PaymentMethod

unfoldable pub method_of : String → PaymentMethod
method_of s =
    if s == "card"
    then card
    else if s == "direct_debit"
    then direct_debit
    else if s == "bank_transfer"
    then bank_transfer
    else if s == "apple_pay"
    then apple_pay
    else if s == "google_pay"
    then google_pay
    else PaymentMethod.other s

unfoldable pub method_valid : PaymentMethod → Bool
method_valid (PaymentMethod.other s) = false
method_valid _ = true

-- Only the stores write a status, and only one of the constants.
pub data PaymentStatus : Type 0 where
  authorized captured settled pending declined refunded : PaymentStatus

pub record Payment : Type 0 where
  pub id : String
  pub merchant_id : String
  pub customer_id : String
  pub amount_minor : ℤ
  pub currency : Currency
  pub method : PaymentMethod
  pub status : PaymentStatus
  pub refunded_minor : ℤ
  pub network_fee_minor : ℤ
  pub created_at : Time
  pub updated_at : Time

pub record CreatePaymentInput : Type 0 where
  pub merchant_id : String
  pub customer_id : String
  pub amount_minor : ℤ
  pub currency : Currency
  pub method : PaymentMethod

pub data RefundStatus : Type 0 where
  created settled : RefundStatus

pub record Refund : Type 0 where
  pub id : String
  pub payment_id : String
  pub merchant_id : String
  pub amount_minor : ℤ
  pub currency : Currency
  pub status : RefundStatus
  pub created_at : Time

pub data ActorRole : Type 0 where
  admin merchant customer : ActorRole
  other : String → ActorRole

pub record Actor : Type 0 where
  pub role : ActorRole
  pub id : String

unfoldable pub currency_eq : Currency → Currency → Bool
currency_eq usd usd = true
currency_eq gbp gbp = true
currency_eq eur eur = true
currency_eq (Currency.other s) (Currency.other t) = s == t
currency_eq _ _ = false

pub data SubscriptionCadence : Type 0 where
  daily weekly monthly : SubscriptionCadence
  other : String → SubscriptionCadence

unfoldable pub cadence_of : String → SubscriptionCadence
cadence_of s =
    if s == "daily"
    then daily
    else if s == "weekly"
    then weekly
    else if s == "monthly"
    then monthly
    else SubscriptionCadence.other s

unfoldable pub cadence_valid : SubscriptionCadence → Bool
cadence_valid (SubscriptionCadence.other s) = false
cadence_valid _ = true

pub data SubscriptionStatus : Type 0 where
  active cancelled : SubscriptionStatus

abbrev pub subscription_status_eq : SubscriptionStatus → SubscriptionStatus → Bool
subscription_status_eq active active = true
subscription_status_eq cancelled cancelled = true
subscription_status_eq _ _ = false

pub record Subscription : Type 0 where
  pub id : String
  pub merchant_id : String
  pub customer_id : String
  pub amount_minor : ℤ
  pub currency : Currency
  pub method : PaymentMethod
  pub cadence : SubscriptionCadence
  pub status : SubscriptionStatus
  pub next_charge_at : Time
  pub next_cycle_idx : ℤ
  pub created_at : Time

pub record CreateSubscriptionInput : Type 0 where
  pub merchant_id : String
  pub customer_id : String
  pub amount_minor : ℤ
  pub currency : Currency
  pub method : PaymentMethod
  pub cadence : SubscriptionCadence
  pub start_at : Time

abbrev pub status_eq : PaymentStatus → PaymentStatus → Bool
status_eq authorized authorized = true
status_eq captured captured = true
status_eq PaymentStatus.settled PaymentStatus.settled = true
status_eq pending pending = true
status_eq declined declined = true
status_eq refunded refunded = true
status_eq _ _ = false

abbrev pub refund_status_eq : RefundStatus → RefundStatus → Bool
refund_status_eq created created = true
refund_status_eq RefundStatus.settled RefundStatus.settled = true
refund_status_eq _ _ = false
