-- ===== src/Postgres/Reports/Tests.antt =====
-- The reports of the PostgreSQL store on concrete rows.
use gripe.Common.{ℕ, String, ◌≡◌, refl, Bool, List, [], ◌∷◌}
use gripe.Int.{pos, ◌+ℤ◌}
use gripe.Domain.{Time, Currency, usd, gbp, declined, currency_eq}
use gripe.Domain.Views.{Balance, MerchantDailyVolume}
use gripe.Query.{filter, map, insert, sort, IsDistinct}
use gripe.Query.Texts.{text_ltb}
use gripe.Exec.{World, ok}
use gripe.Reports.{VolumeKey, volume_key_eq, volume_rows, add_to_group, group}
use gripe.Reports.Totals.{sum, key_of}
use gripe.Reports.Ledgers.{ledger_in}
use gripe.Postgres.{Store, BalanceRow}
use gripe.Postgres.View.{view}
use gripe.Postgres.Reports.{is_counted, volume_key, get_merchant_balances, admin_volume_report}
use gripe.Postgres.Reports.Sums.{admin_volume_report-sums_postgres}
use gripe.Postgres.Reports.Ledgers.{get_merchant_balances-ledger_postgres}
use gripe.Postgres.Tests.{server, pending_world, bank_payment}

abbrev ledger : String → Currency → ℕ → ℕ → BalanceRow
ledger id currency owed fees = record {
  merchant_id = id;
  currency = currency;
  balance_minor = pos owed;
  fees_minor = pos fees;
}

-- Two payments that count, and a declined one that does not.
abbrev report_world : World (Store server)
report_world = record pending_world {
  db = record pending_world.db {
    tables = record pending_world.db.tables {
      payments =
          bank_payment
          ∷ record bank_payment { id = "pay_c"; created_at = 9 }
          ∷ record bank_payment { id = "pay_d"; status = declined }
          ∷ [];
      balances =
          ledger "mer_1" usd 9700 300 ∷ ledger "mer_2" usd 97 3 ∷ ledger "mer_1" gbp 970 30 ∷ [];
    };
  };
}

abbrev one_day : Time → String
one_day t = "0001-01-01"

-- 200.00 in two payments.
volume_of_that_day :
    (admin_volume_report server text_ltb one_day 1 100 report_world).0
    ≡ ok (
        record {
          merchant_id = "mer_1";
          day = "0001-01-01";
          currency = usd;
          total_minor = pos 20000;
          count = pos 2;
        }
        ∷ [])
unfolding admin_volume_report volume_rows group add_to_group filter map insert sort ◌+ℤ◌ currency_eq
volume_of_that_day = refl

admin_volume_report-sums_postgres_example :
    (rows : List MerchantDailyVolume) × ((admin_volume_report server text_ltb one_day 1 100
        report_world).0
      ≡ ok rows)
    × IsDistinct volume_key_eq key_of rows
    × ((q : VolumeKey → Bool)
        → (sum (λ r. q (key_of r)) (λ r. r.total_minor) rows
            ≡ sum
                (λ d. q (volume_key one_day d))
                (λ d. d.amount_minor)
                (filter (is_counted 1 100) (server.payments.scan report_world.db.tables.payments)))
          × (sum (λ r. q (key_of r)) (λ r. r.count) rows
              ≡ sum
                  (λ d. q (volume_key one_day d))
                  (λ d. pos 1)
                  (filter
                    (is_counted 1 100)
                    (server.payments.scan report_world.db.tables.payments))))
admin_volume_report-sums_postgres_example =
    admin_volume_report-sums_postgres server text_ltb one_day 1 100 report_world refl

get_merchant_balances-ledger_postgres_example :
    (bs : List Balance) × ((get_merchant_balances server text_ltb "mer_1" report_world).0 ≡ ok bs)
    × ((get_merchant_balances server text_ltb "mer_1" report_world).1.db ≡ report_world.db)
    × ((c : Currency) → ledger_in c bs ≡ (view server report_world.db.tables).ledger "mer_1" c)
get_merchant_balances-ledger_postgres_example =
    get_merchant_balances-ledger_postgres server text_ltb "mer_1" report_world refl
