-- ===== src/Postgres/View.antt =====
-- What clients can ask the PostgreSQL store for, and the links between its tables.
use gripe.Common.{
  String, ◌≡◌, true, Option, none, some, ◌==◌, ◌&&◌, arith, inl, inr, eq_iff, ◌↔◌, Option-cases,
  if◌then◌else◌,
}
use gripe.Int.Laws.{zero_add_ℤ}
use gripe.Domain.{Payment, Currency, currency_eq}
use gripe.Domain.Equality.{currency_eq_iff}
use gripe.Contract.{Ledger, empty_ledger, credit, View, untimed}
use gripe.Postgres.{
  Server, Tables, PaymentRow, BalanceRow, to_payment, exists, add_to_balance, balance_key_eq,
}

abbrev pub payment_view : Option PaymentRow → Option Payment
payment_view none = none
payment_view (some r) = some (untimed (to_payment r))

abbrev pub balance_view : Option BalanceRow → Ledger
balance_view none = empty_ledger
balance_view (some b) = record { owed = b.balance_minor; fees = b.fees_minor }

abbrev pub view : (S : Server) → Tables S → View
view S t = record {
  payment = λ k. payment_view (S.payments.find k t.payments);
  ledger = λ m c. balance_view (S.balances.find (m, c) t.balances);
}

-- The foreign key of `payments`: each payment's merchant has a row.
pub record IsLinked (S : Server) (t : Tables S) : Type 0 where
  pub merchant_exists :
      (k : String) (r : PaymentRow)
      → S.payments.find k t.payments ≡ some r
      → exists (S.merchants.find r.merchant_id t.merchants) ≡ true

module _ (S : Server) where
  pub payment_view-write :
      (r : PaymentRow) (k : String) (s : S.payments.State)
      → payment_view (S.payments.find k (S.payments.write r s))
        ≡ (if r.id == k then some (untimed (to_payment r)) else payment_view (S.payments.find k s))
  payment_view-write r k s = ground (arith, S.payments.find-write r k s)

  pub balance_view-upsert :
      (b : BalanceRow) (m : String) (c : Currency) (s : S.balances.State)
      → balance_view (
          S.balances.find
            (m, c)
            (S.balances.upsert b (add_to_balance b.balance_minor b.fees_minor) s))
        ≡ (if b.merchant_id == m && currency_eq b.currency c
            then credit b.balance_minor b.fees_minor (balance_view (S.balances.find (m, c) s))
            else balance_view (S.balances.find (m, c) s))
  balance_view-upsert b m c s =
      let add = add_to_balance b.balance_minor b.fees_minor in
      elim (Option-cases (S.balances.find (b.merchant_id, b.currency) s)) [
        | inl unknown ↦ ground (
          arith,
          eq_iff b.merchant_id m,
          currency_eq_iff b.currency c,
          S.balances.upsert_lem b add s,
          S.balances.find-write b (m, c) s,
          zero_add_ℤ b.balance_minor,
          zero_add_ℤ b.fees_minor,
        )
        | inr (d, known) ↦ ground (
          arith,
          eq_iff b.merchant_id m,
          eq_iff d.merchant_id m,
          eq_iff d.merchant_id b.merchant_id,
          currency_eq_iff b.currency c,
          currency_eq_iff d.currency c,
          currency_eq_iff d.currency b.currency,
          S.balances.find-key (b.merchant_id, b.currency) d s known,
          S.balances.upsert_lem b add s,
          S.balances.find-write (add d) (m, c) s,
        )
      ]

pub balance_key_eq_iff : (j k : String × Currency) → (balance_key_eq j k ≡ true) ↔ (j ≡ k)
balance_key_eq_iff (m, c) (n, d) = (
  λ h. ground (arith, eq_iff m n, currency_eq_iff c d),
  λ h. ground (arith, eq_iff m n, currency_eq_iff c d),
)
