-- ===== src/Mongo/Refunds/Debit.antt =====
-- What SettleRefund takes off the balance.
use gripe.Common.{String, ◌≡◌, false, some, ◌==◌, ◌&&◌, arith, if◌then◌else◌}
use gripe.Int.Word.{sub64, neg64}
use gripe.Domain.{Currency, currency_eq}
use gripe.Domain.Money.{gripe_fee}
use gripe.Exec.{World, ok, IsCalm, ◌>>=◌}
use gripe.Contract.{credit}
use gripe.Mongo.{Server, Store, PaymentDoc, RefundElem, refund_to_domain}
use gripe.Mongo.View.{view, merchant_view-upsert}
use gripe.Mongo.Refunds.{any_refund, is_open, set_refund_settled, locate, settle_refund}

module _ (S : Server) (id : String) (w : World (Store S)) (calm : IsCalm w) where
  -- While the server answers, SettleRefund of an open refund returns the refund, and takes its
  -- amount less the fee on that amount off what the payment's merchant is owed in the payment's
  -- currency, and the fee off the fees that it paid, whatever the status of the payment is: one that
  -- was never settled, and so never credited, is debited too. No other ledger changes.
  pub settle_refund-debits :
      (d : PaymentDoc) (r : RefundElem)
      → S.payments.find_where (λ p. any_refund (is_open id) p.refunds) w.db.payments ≡ some d
      → locate id (set_refund_settled id (w.readings 0) d).refunds ≡ some r
      → (r.id == "") ≡ false
      → let (result, w') = settle_refund S id w in
        let fee = gripe_fee r.amount_minor in
        (result ≡ ok (refund_to_domain r d))
        × ((m : String) (c : Currency)
            → (view S w'.db).ledger m c ≡ (
                if d.merchant_id == m && currency_eq d.currency c
                then credit
                    (neg64 (sub64 r.amount_minor fee))
                    (neg64 fee)
                    ((view S w.db).ledger m c)
                else (view S w.db).ledger m c))
  unfolding settle_refund ◌>>=◌
  settle_refund-debits d r found located named =
      let first = calm 0 in
      let second = calm 1 in
      let fee = gripe_fee r.amount_minor in
      let flipped =
        S.payments.update_where_lem (λ p. any_refund (is_open id) p.refunds)
          (set_refund_settled id (w.readings 0)) w.db.payments in
      let debited = λ (m : String) (c : Currency).
        merchant_view-upsert S d.merchant_id m d.currency c (neg64 (sub64 r.amount_minor fee))
          (neg64 fee) (w.readings 1) w.db.merchants in
      (ground arith, λ m c. ground (arith, debited m c))
