-- ===== src/Mongo/Reports.antt =====
-- store/mongo/store.go: GetMerchantBalances, AdminBalanceReport, AdminRevenueReport and
-- AdminVolumeReport.
pub mod Ledgers
pub mod Sums
pub mod Tests
use gripe.Common.{String, Bool, Option, none, some, List, [], ◌∷◌, ◌++◌, ◌&&◌, not, leb, ltb}
use gripe.Domain.{Time, Currency, status_eq, declined}
use gripe.Domain.Views.{
  Balance, MerchantBalanceRow, CurrencyTotal, MerchantDailyVolume, currency_text,
}
use gripe.Query.{filter, sort, map}
use gripe.Query.Texts.{text_ltb}
use gripe.Exec.{Action, Command, exec, pure, ◌>>=◌}
use gripe.Reports.{VolumeKey, is_before_balance, volume_rows, revenue_rows}
use gripe.Mongo.{Server, Store, CurrencyBalance, MerchantDoc, PaymentDoc}

-- `sort.Strings` on the currencies: by bytes, which is by code points.
abbrev pub is_before_code : Currency × CurrencyBalance → Currency × CurrencyBalance → Bool
is_before_code (c, a) (d, b) = text_ltb (currency_text c) (currency_text d)

abbrev pub balance_of : Currency × CurrencyBalance → Balance
balance_of (c, b) = record {
  currency = c;
  balance_minor = b.balance_minor;
  fees_minor = b.fees_minor;
}

-- An unknown merchant has no balances.
unfoldable pub balances_of : Option MerchantDoc → List Balance
balances_of none = []
balances_of (some d) = map balance_of (sort is_before_code d.balances)

abbrev pub balance_row : String → Currency × CurrencyBalance → MerchantBalanceRow
balance_row id (c, b) = record {
  merchant_id = id;
  currency = c;
  balance_minor = b.balance_minor;
  fees_minor = b.fees_minor;
}

-- `$objectToArray` and `$unwind`: one row for each currency of each merchant.
unfoldable pub unwind : List MerchantDoc → List MerchantBalanceRow
unwind [] = []
unwind (d ∷ ds) = map (balance_row d.id) d.balances ++ unwind ds

-- The `$match` of the volume report.
abbrev pub is_counted : Time → Time → PaymentDoc → Bool
is_counted from to d =
    not (status_eq d.status declined) && leb from d.created_at && ltb d.created_at to

abbrev pub volume_key : (Time → String) → PaymentDoc → VolumeKey
volume_key day_of d = record {
  merchant_id = d.merchant_id;
  day = day_of d.created_at;
  currency = d.currency;
}

module _ (S : Server) where
  abbrev find_merchant : String → Command (Store S) (Option MerchantDoc)
  find_merchant id st = some (S.merchants.find id st.merchants, st)

  unfoldable pub get_merchant_balances : String → Action (Store S) (List Balance)
  unfolding balances_of
  get_merchant_balances id = do found ← exec (find_merchant id); pure (balances_of found)

  module _ (text_lt : String → String → Bool) where
    abbrev aggregate_balances : Command (Store S) (List MerchantBalanceRow)
    aggregate_balances st =
        some (sort (is_before_balance text_lt) (unwind (S.merchants.scan st.merchants)), st)

    unfoldable pub admin_balance_report : Action (Store S) (List MerchantBalanceRow)
    unfolding exec
    admin_balance_report = exec aggregate_balances

    abbrev aggregate_revenue : Command (Store S) (List CurrencyTotal)
    aggregate_revenue st = some (
      revenue_rows text_lt (λ r. r.currency) (λ r. r.fees_minor)
          (unwind (S.merchants.scan st.merchants)),
      st,
    )

    unfoldable pub admin_revenue_report : Action (Store S) (List CurrencyTotal)
    unfolding exec
    admin_revenue_report = exec aggregate_revenue

    abbrev aggregate_volume :
        (Time → String) → Time → Time → Command (Store S) (List MerchantDailyVolume)
    aggregate_volume day_of from to st = some (
      volume_rows text_lt (volume_key day_of) (λ d. d.amount_minor)
          (filter (is_counted from to) (S.payments.scan st.payments)),
      st,
    )

    unfoldable pub admin_volume_report :
        (Time → String) → Time → Time → Action (Store S) (List MerchantDailyVolume)
    unfolding exec
    admin_volume_report day_of from to = exec (aggregate_volume day_of from to)
