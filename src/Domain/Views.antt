-- ===== src/Domain/Views.antt =====
-- internal/domain/domain.go: what the listing and the reports take and return. The filters come from
-- a request unchecked, so they are texts.
use gripe.Common.{String, List}
use gripe.Int.{ℤ}
use gripe.Domain.{
  Time, Currency, usd, gbp, eur, PaymentMethod, card, direct_debit, bank_transfer, apple_pay,
  google_pay, PaymentStatus, authorized, captured, settled, pending, declined, refunded, Payment,
}

abbrev pub currency_text : Currency → String
currency_text usd = "USD"
currency_text gbp = "GBP"
currency_text eur = "EUR"
currency_text (Currency.other s) = s

abbrev pub method_text : PaymentMethod → String
method_text card = "card"
method_text direct_debit = "direct_debit"
method_text bank_transfer = "bank_transfer"
method_text apple_pay = "apple_pay"
method_text google_pay = "google_pay"
method_text (PaymentMethod.other s) = s

abbrev pub status_text : PaymentStatus → String
status_text authorized = "authorized"
status_text captured = "captured"
status_text settled = "settled"
status_text pending = "pending"
status_text declined = "declined"
status_text refunded = "refunded"

pub record Filters : Type 0 where
  pub status : String
  pub method : String
  pub currency : String
  pub merchant_id : String
  pub from_time : Time
  pub to_time : Time
  pub min_minor : ℤ
  pub max_minor : ℤ

abbrev pub Cursor : Type 0
Cursor = String

pub record Page : Type 0 where
  pub items : List Payment
  pub next_cursor : Cursor

pub record Balance : Type 0 where
  pub currency : Currency
  pub balance_minor : ℤ
  pub fees_minor : ℤ

pub record MerchantBalanceRow : Type 0 where
  pub merchant_id : String
  pub currency : Currency
  pub balance_minor : ℤ
  pub fees_minor : ℤ

pub record CurrencyTotal : Type 0 where
  pub currency : Currency
  pub total_minor : ℤ

pub record MerchantDailyVolume : Type 0 where
  pub merchant_id : String
  pub day : String
  pub currency : Currency
  pub total_minor : ℤ
  pub count : ℤ
