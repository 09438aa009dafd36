-- ===== src/Mongo/Reports/Tests.antt =====
-- The reports of the Mongo store on concrete documents.
use mathlib.Core.Path.{subst}
use gripe.Common.{String, ◌≡◌, refl, Bool, Option, some, List, [], ◌∷◌, none}
use gripe.Int.{pos, ◌+ℤ◌}
use gripe.Domain.{Time, Currency, usd, gbp, declined, currency_eq}
use gripe.Domain.Views.{Balance, MerchantBalanceRow, CurrencyTotal, MerchantDailyVolume}
use gripe.Query.{filter, map, insert, sort, IsDistinct}
use gripe.Query.Texts.{text_ltb}
use gripe.Exec.{World, ok}
use gripe.Reports.{VolumeKey, volume_key_eq, volume_rows, add_to_group, group}
use gripe.Reports.Totals.{sum, key_of}
use gripe.Reports.Ledgers.{ledger_in}
use gripe.Mongo.{Store, MerchantDoc, CurrencyBalance}
use gripe.Mongo.View.{view}
use gripe.Mongo.Reports.{
  is_counted, volume_key, get_merchant_balances, admin_balance_report, admin_revenue_report,
  admin_volume_report,
}
use gripe.Mongo.Reports.Sums.{admin_volume_report-sums_mongo, admin_revenue_report-balances_mongo}
use gripe.Mongo.Reports.Ledgers.{IsDocument, get_merchant_balances-ledger_mongo}
use gripe.Mongo.Tests.{server, world_of, bank_payment}

abbrev ledger : String → List (Currency × CurrencyBalance) → MerchantDoc
ledger id balances = record { id = id; created_at = some 1; balances = balances; updated_at = none }

abbrev first_merchant : MerchantDoc
first_merchant = ledger "mer_1" (
    (usd, record { balance_minor = pos 9700; fees_minor = pos 300 })
    ∷ (gbp, record { balance_minor = pos 970; fees_minor = pos 30 })
    ∷ [])

abbrev second_merchant : MerchantDoc
second_merchant = ledger "mer_2" ((usd, record { balance_minor = pos 97; fees_minor = pos 3 }) ∷ [])

-- Two payments that count, and a declined one that does not.
abbrev report_world : World (Store server)
report_world = record (world_of []) {
  db = record (world_of []).db {
    payments =
        bank_payment
        ∷ record bank_payment { id = "pay_c"; created_at = 9 }
        ∷ record bank_payment { id = "pay_d"; status = declined }
        ∷ [];
    merchants = first_merchant ∷ second_merchant ∷ [];
  };
}

abbrev one_day : Time → String
one_day t = "0001-01-01"

-- 200.00 in two payments.
volume_of_the_day :
    (admin_volume_report server text_ltb one_day 1 100 report_world).0
    ≡ ok (
        record {
          merchant_id = "mer_1";
          day = "0001-01-01";
          currency = usd;
          total_minor = pos 20000;
          count = pos 2;
        }
        ∷ [])
unfolding admin_volume_report volume_rows group add_to_group filter map insert sort ◌+ℤ◌ currency_eq
volume_of_the_day = refl

admin_volume_report-sums_mongo_example :
    (rows : List MerchantDailyVolume) × ((admin_volume_report server text_ltb one_day 1 100
        report_world).0
      ≡ ok rows)
    × IsDistinct volume_key_eq key_of rows
    × ((q : VolumeKey → Bool)
        → (sum (λ r. q (key_of r)) (λ r. r.total_minor) rows
            ≡ sum
                (λ d. q (volume_key one_day d))
                (λ d. d.amount_minor)
                (filter (is_counted 1 100) (server.payments.scan report_world.db.payments)))
          × (sum (λ r. q (key_of r)) (λ r. r.count) rows
              ≡ sum
                  (λ d. q (volume_key one_day d))
                  (λ d. pos 1)
                  (filter (is_counted 1 100) (server.payments.scan report_world.db.payments))))
admin_volume_report-sums_mongo_example =
    admin_volume_report-sums_mongo server text_ltb one_day 1 100 report_world refl

admin_revenue_report-balances_mongo_example :
    (totals : List CurrencyTotal) × (rows : List MerchantBalanceRow) × ((admin_revenue_report server
        text_ltb report_world).0
      ≡ ok totals)
    × ((admin_balance_report server text_ltb report_world).0 ≡ ok rows)
    × IsDistinct currency_eq (λ r. r.currency) totals
    × ((q : Currency → Bool)
        → sum (λ r. q r.currency) (λ r. r.total_minor) totals
          ≡ sum (λ r. q r.currency) (λ r. r.fees_minor) rows)
admin_revenue_report-balances_mongo_example =
    admin_revenue_report-balances_mongo server text_ltb report_world report_world refl refl refl

abbrev first_world : World (Store server)
first_world = record report_world {
  db = record report_world.db { merchants = first_merchant ∷ [] };
}

abbrev IsDocumented : Option MerchantDoc → Type 0
IsDocumented none = Unit
IsDocumented (some d) = IsDocument d

first_merchant-IsDocument :
    (d : MerchantDoc)
    → server.merchants.find "mer_1" first_world.db.merchants ≡ some d
    → IsDocument d
unfolding currency_eq
first_merchant-IsDocument d h =
    let found : IsDocumented (server.merchants.find "mer_1" first_world.db.merchants) =
      ((refl, tt), (tt, tt)) in
    subst IsDocumented h found

get_merchant_balances-ledger_mongo_example :
    (bs : List Balance) × ((get_merchant_balances server "mer_1" first_world).0 ≡ ok bs)
    × ((get_merchant_balances server "mer_1" first_world).1.db ≡ first_world.db)
    × ((c : Currency) → ledger_in c bs ≡ (view server first_world.db).ledger "mer_1" c)
get_merchant_balances-ledger_mongo_example =
    get_merchant_balances-ledger_mongo server "mer_1" first_world refl first_merchant-IsDocument
