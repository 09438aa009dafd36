-- ===== src/Mongo/View.antt =====
-- What clients can ask the Mongo store for.
use gripe.Common.{
  String, ◌≡◌, Option, none, some, [], ◌∷◌, ◌==◌, ◌&&◌, arith, inl, inr, eq_iff, Option-cases,
  if◌then◌else◌,
}
use gripe.Int.{ℤ}
use gripe.Int.Laws.{zero_add_ℤ}
use gripe.Domain.Equality.{currency_eq_iff}
use gripe.Domain.{Time, Payment, Currency, currency_eq}
use gripe.Contract.{Ledger, empty_ledger, credit, View, untimed}
use gripe.Mongo.{
  Server, Store, Balances, MerchantDoc, PaymentDoc, to_domain, increment, new_merchant,
  add_to_balances,
}

abbrev pub ledger_of : Currency → Balances → Ledger
ledger_of c [] = empty_ledger
ledger_of c ((k, b) ∷ rest) =
    if currency_eq k c
    then (record { owed = b.balance_minor; fees = b.fees_minor })
    else ledger_of c rest

abbrev pub payment_view : Option PaymentDoc → Option Payment
payment_view none = none
payment_view (some d) = some (untimed (to_domain d))

abbrev pub merchant_view : Currency → Option MerchantDoc → Ledger
merchant_view c none = empty_ledger
merchant_view c (some m) = ledger_of c m.balances

abbrev pub view : (S : Server) → Store S → View
view S st = record {
  payment = λ k. payment_view (S.payments.find k st.payments);
  ledger = λ m c. merchant_view c (S.merchants.find m st.merchants);
}

pub ledger_of-increment :
    (c k : Currency) (x y : ℤ) (bs : Balances)
    → ledger_of k (increment c x y bs)
      ≡ (if currency_eq c k then credit x y (ledger_of k bs) else ledger_of k bs)
unfolding increment
ledger_of-increment c k x y [] = ground (arith, zero_add_ℤ x, zero_add_ℤ y)
ledger_of-increment c k x y ((j, b) ∷ bs) = ground (
  arith,
  currency_eq_iff j c,
  currency_eq_iff j k,
  currency_eq_iff c k,
  ledger_of-increment c k x y bs,
)

module _ (S : Server) where
  pub payment_view-write :
      (d : PaymentDoc) (k : String) (s : S.payments.State)
      → payment_view (S.payments.find k (S.payments.write d s))
        ≡ (if d.id == k then some (untimed (to_domain d)) else payment_view (S.payments.find k s))
  payment_view-write d k s = ground (arith, S.payments.find-write d k s)

  -- One credit moves one currency of one merchant, whether the merchant was known or not.
  pub merchant_view-upsert :
      (merchant m : String) (currency c : Currency) (x y : ℤ) (t : Time) (s : S.merchants.State)
      → merchant_view c (
          S.merchants.find m (
            S.merchants.upsert
              (new_merchant merchant currency x y t)
              (add_to_balances currency x y t)
              s))
        ≡ (if merchant == m && currency_eq currency c
            then credit x y (merchant_view c (S.merchants.find m s))
            else merchant_view c (S.merchants.find m s))
  merchant_view-upsert merchant m currency c x y t s =
      let new = new_merchant merchant currency x y t in
      let add = add_to_balances currency x y t in
      elim (Option-cases (S.merchants.find merchant s)) [
        | inl unknown ↦ ground (
          arith,
          eq_iff merchant m,
          S.merchants.upsert_lem new add s,
          S.merchants.find-write new m s,
          ledger_of-increment currency c x y [],
        )
        | inr (d, known) ↦ ground (
          arith,
          eq_iff merchant m,
          eq_iff d.id m,
          eq_iff d.id merchant,
          S.merchants.find-key merchant d s known,
          S.merchants.upsert_lem new add s,
          S.merchants.find-write (add d) m s,
          ledger_of-increment currency c x y d.balances,
        )
      ]
