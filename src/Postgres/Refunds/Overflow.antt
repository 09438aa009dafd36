-- ===== src/Postgres/Refunds/Overflow.antt =====
-- RefundPayment where the refunded amount and the new one add up past a bigint.
use gripe.Common.{String, ◌≡◌, true, false, some, arith}
use gripe.Int.{ℤ, pos, ◌+ℤ◌, leb_ℤ}
use gripe.Domain.{Time}
use gripe.Exec.{World, err, driver, over_refund, ◌>>=◌}
use gripe.Contract
use gripe.Postgres.{Server, Store, PaymentRow}
use gripe.Postgres.View.{view}
use gripe.Postgres.Refunds.{refund_payment}

module _ (S : Server) where
  -- A refund of a positive amount on a captured or settled payment, where the amount refunded so
  -- far and the new amount add up past an int64, is an error of the database and changes nothing,
  -- whatever becomes of the commands; the contract says ErrOverRefund of it.
  pub refund_payment_overflow :
      (id new : String) (t : Time) (amount : ℤ) (r : PaymentRow) (w : World (Store S))
      → S.payments.find id w.db.tables.payments ≡ some r
      → leb_ℤ amount (pos 0) ≡ false
      → leb_ℤ r.amount_minor (pos 9223372036854775807) ≡ true
      → Contract.refundable r.status ≡ true
      → leb_ℤ (r.refunded_minor +ℤ amount) (pos 9223372036854775807) ≡ false
      → ((refund_payment S id amount w).0 ≡ err driver)
        × ((refund_payment S id amount w).1.db ≡ w.db)
        × ((Contract.refund new t amount id (view S w.db.tables)).0 ≡ err over_refund)
  unfolding refund_payment ◌>>=◌
  refund_payment_overflow id new t amount r w e positive column refundable past =
      (ground arith, ground arith, ground arith)
