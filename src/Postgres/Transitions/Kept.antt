-- ===== src/Postgres/Transitions/Kept.antt =====
-- The methods on payments against the contract, with a server that answers.
use gripe.Common.{String, eq_iff, arith, inl, inr, Option-cases}
use gripe.Exec.{World, IsCalm, ◌>>=◌}
use gripe.Contract.{Agrees, capture, settle}
use gripe.Postgres.{Server, Store, to_payment}
use gripe.Postgres.View.{view, IsLinked, payment_view-write, balance_view-upsert}
use gripe.Postgres.Transitions.{
  is_capturable, set_captured, is_settleable, set_settled, credit_row, capture_payment,
  settle_payment,
}

module _ (S : Server) (id : String) (w : World (Store S)) (calm : IsCalm w) where
  -- While the server answers, CapturePayment does what the contract says: an authorized payment
  -- becomes captured, a missing one is ErrNotFound, any other state is ErrInvalidState, and no other
  -- payment and no balance changes.
  pub capture_payment-Agrees_postgres :
      let (r, w') = capture_payment S id w in
      Agrees r (view S w'.db.tables) (capture id (view S w.db.tables))
  unfolding capture_payment ◌>>=◌
  capture_payment-Agrees_postgres =
      let set = set_captured (w.readings 0) in
      let s = w.db.tables.payments in
      let first = calm 0 in
      let second = calm 1 in
      let third = calm 2 in
      let fourth = calm 3 in
      let found = S.payments.update_lem id is_capturable set s in
      elim (Option-cases (S.payments.find id s)) [
        | inl missing ↦
            (ground arith, record { payments = λ k. ground arith; ledgers = λ m c. ground arith })
        | inr (r, e) ↦ (
          ground (
            arith,
            eq_iff r.id id,
            S.payments.find-key id r s e,
            S.payments.find-write (set r) id s,
          ),
          record {
            payments = λ k. ground (arith, payment_view-write S (set r) k s);
            ledgers = λ m c. ground arith;
          },
        )
      ]

  -- While the server answers, and every payment's merchant has a row, SettlePayment does what the
  -- contract says: a captured or pending payment becomes settled, its merchant's ledger in its
  -- currency rises by the amount less the fee and by the fee, and nothing else changes; a missing
  -- payment is ErrNotFound, any other state is ErrInvalidState, and then nothing changes.
  pub settle_payment-Agrees_postgres :
      IsLinked S w.db.tables
      → let (r, w') = settle_payment S id w in
        Agrees r (view S w'.db.tables) (settle id (view S w.db.tables))
  unfolding settle_payment ◌>>=◌
  settle_payment-Agrees_postgres linked =
      let set = set_settled (w.readings 0) in
      let s = w.db.tables.payments in
      let first = calm 0 in
      let second = calm 1 in
      let third = calm 2 in
      let fourth = calm 3 in
      let found = S.payments.update_lem id is_settleable set s in
      elim (Option-cases (S.payments.find id s)) [
        | inl missing ↦
            (ground arith, record { payments = λ k. ground arith; ledgers = λ m c. ground arith })
        | inr (r, e) ↦
            let row = credit_row (to_payment r) in
            let owned = linked.merchant_exists id r e in
            (
              ground arith,
              record {
                payments = λ k. ground (arith, payment_view-write S (set r) k s);
                ledgers = λ m c. ground (arith, balance_view-upsert S row m c w.db.tables.balances);
              },
            )
      ]
