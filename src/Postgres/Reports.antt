-- ===== src/Postgres/Reports.antt =====
-- store/postgres/store.go: GetMerchantBalances, AdminBalanceReport, AdminRevenueReport and
-- AdminVolumeReport.
pub mod Ledgers
pub mod Sums
pub mod Tests
use gripe.Common.{String, Bool, List, some, ◌==◌, ◌&&◌, not, leb, ltb}
use gripe.Domain.{Time, status_eq, declined}
use gripe.Domain.Views.{
  Balance, MerchantBalanceRow, CurrencyTotal, MerchantDailyVolume, currency_text,
}
use gripe.Query.{filter, sort, map}
use gripe.Exec.{Action, Command}
use gripe.Reports.{VolumeKey, is_before_balance, volume_rows, revenue_rows}
use gripe.Postgres.{Server, Tables, Store, PaymentRow, BalanceRow, pool_exec}

-- ORDER BY currency ASC
abbrev pub is_before_code : (String → String → Bool) → BalanceRow → BalanceRow → Bool
is_before_code text_lt a b = text_lt (currency_text a.currency) (currency_text b.currency)

abbrev pub balance_of : BalanceRow → Balance
balance_of r = record {
  currency = r.currency;
  balance_minor = r.balance_minor;
  fees_minor = r.fees_minor;
}

abbrev pub balance_row : BalanceRow → MerchantBalanceRow
balance_row r = record {
  merchant_id = r.merchant_id;
  currency = r.currency;
  balance_minor = r.balance_minor;
  fees_minor = r.fees_minor;
}

-- The WHERE of the volume report.
abbrev pub is_counted : Time → Time → PaymentRow → Bool
is_counted from to r =
    not (status_eq r.status declined) && leb from r.created_at && ltb r.created_at to

abbrev pub volume_key : (Time → String) → PaymentRow → VolumeKey
volume_key day_of r = record {
  merchant_id = r.merchant_id;
  day = day_of r.created_at;
  currency = r.currency;
}

module _ (S : Server) (text_lt : String → String → Bool) where
  abbrev select_ledger : String → Command (Tables S) (List Balance)
  select_ledger id t = some (
    map balance_of (
        sort (is_before_code text_lt)
          (filter (λ r. r.merchant_id == id) (S.balances.scan t.balances))),
    t,
  )

  unfoldable pub get_merchant_balances : String → Action (Store S) (List Balance)
  unfolding pool_exec
  get_merchant_balances id = pool_exec S (select_ledger id)

  abbrev select_balances : Command (Tables S) (List MerchantBalanceRow)
  select_balances t =
      some (sort (is_before_balance text_lt) (map balance_row (S.balances.scan t.balances)), t)

  unfoldable pub admin_balance_report : Action (Store S) (List MerchantBalanceRow)
  unfolding pool_exec
  admin_balance_report = pool_exec S select_balances

  abbrev select_revenue : Command (Tables S) (List CurrencyTotal)
  select_revenue t =
      some
        (revenue_rows text_lt (λ r. r.currency) (λ r. r.fees_minor) (S.balances.scan t.balances), t)

  unfoldable pub admin_revenue_report : Action (Store S) (List CurrencyTotal)
  unfolding pool_exec
  admin_revenue_report = pool_exec S select_revenue

  abbrev select_volume :
      (Time → String) → Time → Time → Command (Tables S) (List MerchantDailyVolume)
  select_volume day_of from to t = some (
    volume_rows text_lt (volume_key day_of) (λ r. r.amount_minor)
        (filter (is_counted from to) (S.payments.scan t.payments)),
    t,
  )

  unfoldable pub admin_volume_report :
      (Time → String) → Time → Time → Action (Store S) (List MerchantDailyVolume)
  unfolding pool_exec
  admin_volume_report day_of from to = pool_exec S (select_volume day_of from to)
