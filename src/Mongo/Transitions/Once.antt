-- ===== src/Mongo/Transitions/Once.antt =====
-- SettlePayment, called again and cut off between its two writes.
use gripe.Common.{String, ◌≡◌, true, some, ◌⊎◌, inl, inr, arith, Option-cases}
use gripe.Domain.{Payment}
use gripe.Exec.{World, answered, refused, ok, err, driver, invalid_state, ◌>>=◌}
use gripe.Mongo.{Server, Store, PaymentDoc}
use gripe.Mongo.Transitions.{is_settleable, set_settled, settle_payment}

module _ (S : Server) (id : String) (w : World (Store S)) where
  -- After a SettlePayment that returned a payment, another one for the same id changes nothing and
  -- returns ErrInvalidState or an error of the server, whatever becomes of the commands of both.
  pub settle_payment-twice :
      (p : Payment)
      → let (r, w') = settle_payment S id w in
        let (r', w'') = settle_payment S id w' in
        r ≡ ok p → (w''.db ≡ w'.db) × ((r' ≡ err invalid_state) ⊎ (r' ≡ err driver))
  unfolding settle_payment ◌>>=◌
  settle_payment-twice p h = elim (Option-cases (S.payments.find id w.db.payments)) [
    | inl missing ↦
        ground
          (arith, S.payments.update_lem id is_settleable (set_settled (w.readings 0)) w.db.payments)
    | inr (d, e) ↦
        let d' = set_settled (w.readings 0) d in
        let s' = S.payments.write d' w.db.payments in
        ground (
          arith,
          S.payments.update_lem id is_settleable (set_settled (w.readings 0)) w.db.payments,
          S.payments.update_lem id is_settleable (set_settled (w.readings 2)) s',
          S.payments.find-write d' id w.db.payments,
          S.payments.find-key id d w.db.payments e,
        )
  ]

  -- A SettlePayment of a captured or pending payment whose second command does not reach the server
  -- returns an error, leaves the payment settled and leaves every balance as it was.
  pub settle_payment_loses_credit :
      (d : PaymentDoc)
      → S.payments.find id w.db.payments ≡ some d
      → is_settleable d ≡ true
      → w.outcomes 0 ≡ answered
      → w.outcomes 1 ≡ refused
      → let (r, w') = settle_payment S id w in
        (r ≡ err driver)
        × (S.payments.find id w'.db.payments ≡ some (set_settled (w.readings 0) d))
        × (w'.db.merchants ≡ w.db.merchants)
  unfolding settle_payment ◌>>=◌
  settle_payment_loses_credit d e q first second = ground (
    arith,
    S.payments.update_lem id is_settleable (set_settled (w.readings 0)) w.db.payments,
    S.payments.find-write (set_settled (w.readings 0) d) id w.db.payments,
    S.payments.find-key id d w.db.payments e,
  )
