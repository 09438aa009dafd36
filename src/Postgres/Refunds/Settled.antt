-- ===== src/Postgres/Refunds/Settled.antt =====
-- SettleRefund against the contract, with a server that answers.
use gripe.Common.{String, some, none, Option, Bool-cases, inl, inr, Option-cases, arith}
use gripe.Int.Word.{sub64, neg64}
use gripe.Domain.{Refund}
use gripe.Domain.Money.{gripe_fee}
use gripe.Exec.{World, IsCalm, ◌>>=◌}
use gripe.Contract.SettleRefund
use gripe.Contract.SettleRefund.{Refunds, AgreesSettled}
use gripe.Postgres.{Server, Store, Tables, PaymentRow, RefundRow, BalanceRow}
use gripe.Postgres.View.{view, balance_view-upsert}
use gripe.Postgres.Sound.{IsSound}
use gripe.Postgres.Refunds.{to_refund, is_open, set_settled, settle_refund}

abbrev joined : RefundRow → Option PaymentRow → Option Refund
joined f none = none
joined f (some p) = some (to_refund f p)

abbrev parent : (S : Server) → Tables S → Option RefundRow → Option Refund
parent S t none = none
parent S t (some f) = joined f (S.payments.find f.payment_id t.payments)

-- A refund with the merchant and the currency of its payment.
abbrev pub refunds_view : (S : Server) → Tables S → Refunds
refunds_view S t k = parent S t (S.refunds.find k t.refunds)

module _ (S : Server) (id : String) (w : World (Store S)) (calm : IsCalm w) where
  -- While the server answers, and the tables are linked as they should be, SettleRefund does what the
  -- contract says: an open refund becomes settled, its merchant's ledger in its currency falls by the
  -- amount less the fee on it and by the fee, and nothing else changes; a missing refund is ErrNotFound,
  -- a settled one ErrInvalidState, and then nothing changes.
  pub settle_refund-AgreesSettled_postgres :
      IsSound S w.db
      → let (r, w') = settle_refund S id w in
        AgreesSettled r
          (refunds_view S w'.db.tables)
          (view S w'.db.tables)
          (SettleRefund.settle_refund id (refunds_view S w.db.tables) (view S w.db.tables))
  unfolding settle_refund ◌>>=◌
  settle_refund-AgreesSettled_postgres sound =
      let s = w.db.tables.refunds in
      let c0 = calm 0 in
      let c1 = calm 1 in
      let c2 = calm 2 in
      let c3 = calm 3 in
      let flipped = S.refunds.update_lem id is_open set_settled s in
      elim (Option-cases (S.refunds.find id s)) [
        | inl missing ↦ (
          ground arith,
          λ k. ground arith,
          record { payments = λ k. ground arith; ledgers = λ m c. ground arith },
        )
        | inr (f, found) ↦ elim (Option-cases (S.payments.find f.payment_id w.db.tables.payments)) [
          | inl orphan ↦ absurd (let linked = sound.payment_of id f found in ground arith)
          | inr (p, owner) ↦ elim (Bool-cases (is_open f)) [
            | inr settled ↦ (
              ground arith,
              λ k. ground arith,
              record { payments = λ k. ground arith; ledgers = λ m c. ground arith },
            )
            | inl unsettled ↦
                let known = sound.merchant_of f.payment_id p owner in
                let fee = gripe_fee f.amount_minor in
                let row : BalanceRow = record {
                  merchant_id = p.merchant_id;
                  currency = p.currency;
                  balance_minor = neg64 (sub64 f.amount_minor fee);
                  fees_minor = neg64 fee;
                } in
                (
                  ground arith,
                  λ k. ground (arith, S.refunds.find-write (set_settled f) k s),
                  record {
                    payments = λ k. ground arith;
                    ledgers =
                        λ m c. ground (arith, balance_view-upsert S row m c w.db.tables.balances);
                  },
                )
          ]
        ]
      ]
