-- ===== src/Mongo/Reports/Ledgers.antt =====
-- GetMerchantBalances of the Mongo store.
use gripe.Common.{String, ◌≡◌, ◌∙◌, refl, ap, sym, none, some, Option, List, [], ◌∷◌, arith}
use mathlib.Core.Option
use gripe.Domain.{Currency, currency_eq}
use gripe.Domain.Equality.{currency_eq_iff}
use gripe.Domain.Views.{Balance}
use gripe.Query.{sort, lookup_by, IsDistinct}
use gripe.Query.Mapped.{lookup_by-map}
use gripe.Query.Keyed.{lookup_by-sort}
use gripe.Exec.{World, ok, answered, ◌>>=◌}
use gripe.Reports.Ledgers.{entry_ledger, ledger_in}
use gripe.Mongo.{Server, Store, CurrencyBalance, Balances, MerchantDoc}
use gripe.Mongo.View.{view, ledger_of, merchant_view}
use gripe.Mongo.Reports.{is_before_code, balance_of, balances_of, get_merchant_balances}

ledger_of-lookup_by :
    (c : Currency) (bs : Balances)
    → ledger_of c bs ≡ entry_ledger (Option.map balance_of (lookup_by currency_eq (λ e. e.0) c bs))
ledger_of-lookup_by c [] = refl
ledger_of-lookup_by c ((k, b) ∷ bs) = ground (arith, ledger_of-lookup_by c bs)

-- The field names of a document are distinct.
abbrev pub IsDocument : MerchantDoc → Type 0
IsDocument d = IsDistinct currency_eq (λ (e : Currency × CurrencyBalance). e.0) d.balances

ledger_in-balances_of :
    (c : Currency) (found : Option MerchantDoc)
    → ((d : MerchantDoc) → found ≡ some d → IsDocument d)
    → ledger_in c (balances_of found) ≡ merchant_view c found
unfolding balances_of
ledger_in-balances_of c none h = refl
ledger_in-balances_of c (some d) h =
    ap entry_ledger (
      lookup_by-map balance_of currency_eq (λ (b : Balance). b.currency) c
        (sort is_before_code d.balances)
      ∙ ap (Option.map balance_of) (
          lookup_by-sort currency_eq (λ (e : Currency × CurrencyBalance). e.0) currency_eq_iff
            is_before_code c d.balances (h d refl)))
    ∙ sym (ledger_of-lookup_by c d.balances)

-- Where the server answers, GetMerchantBalances returns the ledger of the merchant: for each
-- currency, the balance and the fees that the stored document has, and nothing for a currency in
-- which nothing was settled or for a merchant that is not known; nothing changes. The currencies of
-- the document are distinct, as the field names of a document are.
pub get_merchant_balances-ledger_mongo :
    (S : Server) (m : String) (w : World (Store S))
    → w.outcomes 0 ≡ answered
    → ((d : MerchantDoc) → S.merchants.find m w.db.merchants ≡ some d → IsDocument d)
    → (bs : List Balance) × ((get_merchant_balances S m w).0 ≡ ok bs)
      × ((get_merchant_balances S m w).1.db ≡ w.db)
      × ((c : Currency) → ledger_in c bs ≡ (view S w.db).ledger m c)
unfolding get_merchant_balances ◌>>=◌
get_merchant_balances-ledger_mongo S m w answer documents = (
  balances_of (S.merchants.find m w.db.merchants),
  rw answer refl,
  rw answer refl,
  λ c. ledger_in-balances_of c (S.merchants.find m w.db.merchants) documents,
)
