-- ===== src/Postgres/Transitions/Atomic.antt =====
-- SettlePayment, with any outcomes of its statements.
use gripe.Common.{String, ◌≡◌, true, some, ◌⊎◌, arith}
use gripe.Domain.{Time, Payment}
use gripe.Exec.{World, ok, ◌>>=◌}
use gripe.Postgres.{Server, Store, Tables, PaymentRow, to_payment, add_to_balance}
use gripe.Postgres.Transitions.{is_settleable, set_settled, credit_row, settle_payment}

-- The tables with the flip and the credit, or as they were where the payment does not admit them.
abbrev pub settled_row : (S : Server) → Time → PaymentRow → Tables S → Tables S
settled_row S t r tables =
    let b = credit_row (to_payment r) in
    record tables {
      payments = S.payments.write (set_settled t r) tables.payments;
      balances = S.balances.upsert b (add_to_balance b.balance_minor b.fees_minor) tables.balances;
    }

module _ (S : Server) (id : String) (w : World (Store S)) where
  -- Whatever becomes of its statements, a SettlePayment of a captured or pending payment leaves the
  -- store as it was, or leaves the payment settled and the balance credited and all else as it was;
  -- where it returns a payment, it has done the latter.
  pub settle_payment-atomic :
      (row : PaymentRow)
      → S.payments.find id w.db.tables.payments ≡ some row
      → is_settleable row ≡ true
      → let (r, w') = settle_payment S id w in
        let after = record w.db { tables = settled_row S (w.readings 0) row w.db.tables } in
        ((w'.db ≡ w.db) ⊎ (w'.db ≡ after)) × ((p : Payment) → r ≡ ok p → w'.db ≡ after)
  unfolding settle_payment ◌>>=◌
  settle_payment-atomic row e q =
      let found =
        S.payments.update_lem id is_settleable (set_settled (w.readings 0)) w.db.tables.payments in
      (ground (arith, found), λ p h. ground (arith, found))
