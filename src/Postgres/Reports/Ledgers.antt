-- ===== src/Postgres/Reports/Ledgers.antt =====
-- GetMerchantBalances of the PostgreSQL store.
use gripe.Common.{
  String, ◌≡◌, ◌∙◌, refl, ap, sym, Bool, true, false, none, some, Option, List, [], ◌∷◌, ◌==◌,
  arith, eq_iff, Bool-cases, inl, inr,
}
use mathlib.Core.Option
use gripe.Domain.{Currency, currency_eq}
use gripe.Domain.Equality.{currency_eq_iff}
use gripe.Domain.Views.{Balance}
use gripe.Query.{map, sort, filter, All, lookup_by, IsDistinct}
use gripe.Query.Mapped.{lookup_by-map}
use gripe.Query.Keyed.{lookup_by-sort}
use gripe.Exec.{World, ok, answered, exec}
use gripe.Reports.Ledgers.{entry_ledger, ledger_in}
use gripe.Postgres.{Server, Store, BalanceRow, balance_key, balance_key_eq, pool_exec}
use gripe.Postgres.View.{view, balance_view}
use gripe.Postgres.Reports.{is_before_code, balance_of, get_merchant_balances}

module _ (m : String) where
  abbrev own : List BalanceRow → List BalanceRow
  own rs = filter (λ r. r.merchant_id == m) rs

  own-All :
      (x : BalanceRow) (rs : List BalanceRow)
      → (x.merchant_id == m) ≡ true
      → All (λ r. balance_key_eq (balance_key x) (balance_key r) ≡ false) rs
      → All (λ r. currency_eq x.currency r.currency ≡ false) (own rs)
  unfolding filter
  own-All x [] e h = tt
  own-All x (r ∷ rs) e h = elim (Bool-cases (r.merchant_id == m)) [
    | inl e' ↦ rw e' (
      ground (
        arith,
        h.0,
        eq_iff x.merchant_id m,
        eq_iff r.merchant_id m,
        eq_iff x.merchant_id r.merchant_id,
      ),
      own-All x rs e h.1,
    )
    | inr e' ↦ rw e' (own-All x rs e h.1)
  ]

  own-IsDistinct :
      (rs : List BalanceRow)
      → IsDistinct balance_key_eq balance_key rs
      → IsDistinct currency_eq (λ r. r.currency) (own rs)
  unfolding filter
  own-IsDistinct [] d = tt
  own-IsDistinct (r ∷ rs) d = elim (Bool-cases (r.merchant_id == m)) [
    | inl e ↦ rw e (own-All r rs e d.0, own-IsDistinct rs d.1)
    | inr e ↦ rw e (own-IsDistinct rs d.1)
  ]

  lookup_by-own :
      (c : Currency) (rs : List BalanceRow)
      → lookup_by currency_eq (λ r. r.currency) c (own rs)
        ≡ lookup_by balance_key_eq balance_key (m, c) rs
  unfolding filter
  lookup_by-own c [] = refl
  lookup_by-own c (r ∷ rs) = ground (arith, lookup_by-own c rs)

balance_view-entry :
    (found : Option BalanceRow) → entry_ledger (Option.map balance_of found) ≡ balance_view found
balance_view-entry none = refl
balance_view-entry (some b) = refl

-- Where the server answers, GetMerchantBalances returns the ledger of the merchant: for each
-- currency, the balance and the fees of the row of that merchant and currency, and nothing where
-- there is no such row; nothing changes.
pub get_merchant_balances-ledger_postgres :
    (S : Server) (text_lt : String → String → Bool) (m : String) (w : World (Store S))
    → w.outcomes 0 ≡ answered
    → (bs : List Balance) × ((get_merchant_balances S text_lt m w).0 ≡ ok bs)
      × ((get_merchant_balances S text_lt m w).1.db ≡ w.db)
      × ((c : Currency) → ledger_in c bs ≡ (view S w.db.tables).ledger m c)
unfolding get_merchant_balances pool_exec exec
get_merchant_balances-ledger_postgres S text_lt m w answer =
    let rows = S.balances.scan w.db.tables.balances in
    let sorted = sort (is_before_code text_lt) (own m rows) in
    (
      map balance_of sorted,
      rw answer refl,
      rw answer refl,
      λ c.
          ap entry_ledger (
            lookup_by-map balance_of currency_eq (λ (b : Balance). b.currency) c sorted
            ∙ ap (Option.map balance_of) (
                lookup_by-sort currency_eq (λ (r : BalanceRow). r.currency) currency_eq_iff
                  (is_before_code text_lt) c (own m rows)
                  (own-IsDistinct m rows (S.balances.scan_distinct w.db.tables.balances))
                ∙ lookup_by-own m c rows
                ∙ sym (S.balances.find-scan (m, c) w.db.tables.balances)))
          ∙ balance_view-entry (S.balances.find (m, c) w.db.tables.balances),
    )
