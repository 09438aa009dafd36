-- ===== src/Mongo/Refunds/Kept.antt =====
-- RefundPayment against the contract, with a server that answers.
use gripe.Common.{String, inl, inr, Option-cases, arith}
use gripe.Int.{ℤ}
use gripe.Exec.{World, IsCalm, ◌>>=◌, new_refund_id}
use gripe.Contract
use gripe.Contract.{AgreesRefund}
use gripe.Mongo.{Server, Store}
use gripe.Mongo.View.{view, payment_view-write}
use gripe.Mongo.Refunds.{can_refund, add_refund, refund_payment}

module _ (S : Server) (id : String) (w : World (Store S)) (calm : IsCalm w) where
  -- While the server answers, RefundPayment does what the contract says: a refund of a positive
  -- amount that fits in what is left of a captured or settled payment is created with the new id,
  -- the payment's refunded amount rises by it, the payment becomes `refunded` exactly if nothing is
  -- left, and no other payment and no balance changes; an amount that is not positive is
  -- ErrInvalidState, a missing payment ErrNotFound, a payment in another state ErrInvalidState, an
  -- amount that does not fit ErrOverRefund, and then nothing changes.
  pub refund_payment-AgreesRefund_mongo :
      (amount : ℤ)
      → let (r, w') = refund_payment S id amount w in
        AgreesRefund r
          (view S w'.db)
          (Contract.refund (new_refund_id w) (w.readings 0) amount id (view S w.db))
  unfolding refund_payment ◌>>=◌
  refund_payment-AgreesRefund_mongo amount =
      let add = add_refund (new_refund_id w) amount (w.readings 0) in
      let s = w.db.payments in
      let first = calm 0 in
      let second = calm 1 in
      let found = S.payments.update_lem id (can_refund amount) add s in
      elim (Option-cases (S.payments.find id s)) [
        | inl missing ↦
            (ground arith, record { payments = λ k. ground arith; ledgers = λ m c. ground arith })
        | inr (d, e) ↦ (
          ground arith,
          record {
            payments = λ k. ground (arith, payment_view-write S (add d) k s);
            ledgers = λ m c. ground arith;
          },
        )
      ]
