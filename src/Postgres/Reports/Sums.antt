-- ===== src/Postgres/Reports/Sums.antt =====
-- The reports of the PostgreSQL store, against the rows that they are about.
use gripe.Common.{String, ◌≡◌, ◌∙◌, sym, refl, Bool, List}
use gripe.Int.{pos}
use gripe.Domain.{Time, Currency, currency_eq}
use gripe.Domain.Views.{MerchantBalanceRow, CurrencyTotal, MerchantDailyVolume}
use gripe.Query.{filter, sort, map, IsDistinct}
use gripe.Exec.{World, ok, answered, exec}
use gripe.Reports.{VolumeKey, volume_key_eq, is_before_balance, volume_rows, revenue_rows}
use gripe.Reports.Totals.{sum, sum-sort, sum-map, sum-volume_rows, sum-revenue_rows, key_of}
use gripe.Reports.Rows.{volume_rows-IsDistinct, revenue_rows-IsDistinct}
use gripe.Postgres.{Server, Store, pool_exec}
use gripe.Postgres.Reports.{
  balance_row, is_counted, volume_key, admin_balance_report, admin_revenue_report,
  admin_volume_report,
}

module _ (S : Server) (text_lt : String → String → Bool) where
  -- Where the server answers, the volume report has one row for each merchant, day and currency, and
  -- whatever rows are picked by these three, their totals and their counts add up to the amounts and
  -- the number of all payments of these merchants, days and currencies that are not declined and were
  -- created in the period; nothing is lost or counted twice.
  pub admin_volume_report-sums_postgres :
      (day_of : Time → String) (from to : Time) (w : World (Store S))
      → w.outcomes 0 ≡ answered
      → (rows : List MerchantDailyVolume) × ((admin_volume_report S text_lt day_of from to w).0
          ≡ ok rows)
        × IsDistinct volume_key_eq key_of rows
        × ((q : VolumeKey → Bool)
            → (sum (λ r. q (key_of r)) (λ r. r.total_minor) rows
                ≡ sum
                    (λ d. q (volume_key day_of d))
                    (λ d. d.amount_minor)
                    (filter (is_counted from to) (S.payments.scan w.db.tables.payments)))
              × (sum (λ r. q (key_of r)) (λ r. r.count) rows
                  ≡ sum
                      (λ d. q (volume_key day_of d))
                      (λ d. pos 1)
                      (filter (is_counted from to) (S.payments.scan w.db.tables.payments))))
  unfolding admin_volume_report pool_exec exec
  admin_volume_report-sums_postgres day_of from to w answer =
      let counted = filter (is_counted from to) (S.payments.scan w.db.tables.payments) in
      (
        volume_rows text_lt (volume_key day_of) (λ d. d.amount_minor) counted,
        rw answer refl,
        volume_rows-IsDistinct text_lt (volume_key day_of) (λ d. d.amount_minor) counted,
        λ q. sum-volume_rows text_lt (volume_key day_of) (λ d. d.amount_minor) counted q,
      )

  -- Where the server answers and no balance changes in between, the revenue report has one row for
  -- each currency, and the totals of whatever currencies are picked add up to the fees that the
  -- balance report shows in these currencies over all merchants.
  pub admin_revenue_report-balances_postgres :
      (w v : World (Store S))
      → w.outcomes 0 ≡ answered
      → v.outcomes 0 ≡ answered
      → w.db ≡ v.db
      → (totals : List CurrencyTotal) × (rows : List MerchantBalanceRow) × ((admin_revenue_report S
            text_lt w).0
          ≡ ok totals)
        × ((admin_balance_report S text_lt v).0 ≡ ok rows)
        × IsDistinct currency_eq (λ r. r.currency) totals
        × ((q : Currency → Bool)
            → sum (λ r. q r.currency) (λ r. r.total_minor) totals
              ≡ sum (λ r. q r.currency) (λ r. r.fees_minor) rows)
  unfolding admin_revenue_report admin_balance_report pool_exec exec
  admin_revenue_report-balances_postgres w v answer answer' same =
      let ledgers = S.balances.scan v.db.tables.balances in
      (
        revenue_rows text_lt (λ r. r.currency) (λ r. r.fees_minor) ledgers,
        sort (is_before_balance text_lt) (map balance_row ledgers),
        rw (answer, same) refl,
        rw answer' refl,
        revenue_rows-IsDistinct text_lt (λ r. r.currency) (λ r. r.fees_minor) ledgers,
        λ q.
            sum-revenue_rows text_lt (λ r. r.currency) (λ r. r.fees_minor) ledgers q
            ∙ sym (
                sum-sort (λ r. q r.currency) (λ r. r.fees_minor) (is_before_balance text_lt)
                  (map balance_row ledgers)
                ∙ sum-map (λ r. q r.currency) (λ r. r.fees_minor) balance_row ledgers),
      )
