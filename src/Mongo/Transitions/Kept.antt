-- ===== src/Mongo/Transitions/Kept.antt =====
-- The methods on payments against the contract, with a server that answers.
use gripe.Common.{String, ◌≡◌, false, inl, inr, Option-cases, arith}
use gripe.Int.{ℤ, pos, leb_ℤ}
use gripe.Int.Word.{sub64}
use gripe.Domain.{Currency}
use gripe.Domain.Money.{gripe_fee}
use gripe.Exec.{World, IsCalm, ◌>>=◌}
use gripe.Contract.{Agrees, capture, settle, network_fee}
use gripe.Mongo.{Server, Store}
use gripe.Mongo.View.{view, payment_view-write, merchant_view-upsert}
use gripe.Mongo.Transitions.{
  is_capturable, set_captured, is_settleable, set_settled, has_no_network_fee, set_network_fee,
  capture_payment, settle_payment, settle_network_fee,
}

module _ (S : Server) (id : String) (w : World (Store S)) (calm : IsCalm w) where
  -- While the server answers, CapturePayment does what the contract says: an authorized payment
  -- becomes captured, a missing one is ErrNotFound, any other state is ErrInvalidState, and no other
  -- payment and no balance changes.
  pub capture_payment-Agrees_mongo :
      let (r, w') = capture_payment S id w in Agrees r (view S w'.db) (capture id (view S w.db))
  unfolding capture_payment ◌>>=◌
  capture_payment-Agrees_mongo =
      let set = set_captured (w.readings 0) in
      let s = w.db.payments in
      let first = calm 0 in
      let second = calm 1 in
      let found = S.payments.update_lem id is_capturable set s in
      elim (Option-cases (S.payments.find id s)) [
        | inl missing ↦
            (ground arith, record { payments = λ k. ground arith; ledgers = λ m c. ground arith })
        | inr (d, e) ↦ (
          ground arith,
          record {
            payments = λ k. ground (arith, payment_view-write S (set d) k s);
            ledgers = λ m c. ground arith;
          },
        )
      ]

  -- While the server answers, SettlePayment does what the contract says: a captured or pending
  -- payment becomes settled, its merchant's ledger in its currency rises by the amount less the fee
  -- and by the fee, and nothing else changes; a missing payment is ErrNotFound, any other state is
  -- ErrInvalidState, and then nothing changes.
  pub settle_payment-Agrees_mongo :
      let (r, w') = settle_payment S id w in Agrees r (view S w'.db) (settle id (view S w.db))
  unfolding settle_payment ◌>>=◌
  settle_payment-Agrees_mongo =
      let set = set_settled (w.readings 0) in
      let s = w.db.payments in
      let first = calm 0 in
      let second = calm 1 in
      let found = S.payments.update_lem id is_settleable set s in
      elim (Option-cases (S.payments.find id s)) [
        | inl missing ↦
            (ground arith, record { payments = λ k. ground arith; ledgers = λ m c. ground arith })
        | inr (d, e) ↦
            let fee = gripe_fee d.amount_minor in
            let credited = λ (m : String) (c : Currency).
              merchant_view-upsert S d.merchant_id m d.currency c (sub64 d.amount_minor fee) fee
                (w.readings 1) w.db.merchants in
            (
              ground arith,
              record {
                payments = λ k. ground (arith, payment_view-write S (set d) k s);
                ledgers = λ m c. ground (arith, credited m c);
              },
            )
      ]

  -- While the server answers, SettleNetworkFee with a positive fee does what the contract says: it
  -- records the fee on a payment that has none, returns a payment that has one as it is, and changes
  -- nothing else; a missing payment is ErrNotFound.
  pub settle_network_fee-Agrees_mongo :
      (fee : ℤ)
      → leb_ℤ fee (pos 0) ≡ false
      → let (r, w') = settle_network_fee S id fee w in
        Agrees r (view S w'.db) (network_fee fee id (view S w.db))
  unfolding settle_network_fee ◌>>=◌
  settle_network_fee-Agrees_mongo fee positive =
      let set = set_network_fee fee (w.readings 0) in
      let s = w.db.payments in
      let first = calm 0 in
      let second = calm 1 in
      let found = S.payments.update_lem id has_no_network_fee set s in
      elim (Option-cases (S.payments.find id s)) [
        | inl missing ↦
            (ground arith, record { payments = λ k. ground arith; ledgers = λ m c. ground arith })
        | inr (d, e) ↦ (
          ground arith,
          record {
            payments = λ k. ground (arith, payment_view-write S (set d) k s);
            ledgers = λ m c. ground arith;
          },
        )
      ]
