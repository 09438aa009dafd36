-- ===== src/Mongo/Calls.antt =====
-- The methods that create and move payments, called one after another, against the contract.
use gripe.Common.{String, List, refl, inl, inr, Option-cases, arith}
use gripe.Domain.{Actor}
use gripe.Exec.{World, IsCalm, ◌>>=◌}
use gripe.Contract.{Agrees}
use gripe.Contract.Calls
use gripe.Contract.Calls.{
  Call, create, get, capture_of, settle_of, network_fee_of, refund_of, Moment, world_at, Answer,
  payment_answer, refund_answer, answered_payment, answered_refund, promised, run, run-KeepsUndated,
  KeepsUndated, Keeps, Agrees-Keeps, AgreesRefund-Keeps, IsPlain, AllPlain,
}
use gripe.Mongo.{Server, Store}
use gripe.Mongo.View.{view}
use gripe.Mongo.Create.{create_payment}
use gripe.Mongo.Create.Kept.{create_payment-Agrees_mongo}
use gripe.Mongo.Transitions.{
  get_payment, may_see, capture_payment, settle_payment, settle_network_fee,
}
use gripe.Mongo.Transitions.Kept.{
  capture_payment-Agrees_mongo, settle_payment-Agrees_mongo, settle_network_fee-Agrees_mongo,
}
use gripe.Mongo.Refunds.{refund_payment}
use gripe.Mongo.Refunds.Kept.{refund_payment-AgreesRefund_mongo}

module _ (S : Server) where
  unfoldable pub answer : Call → Moment → Store S → Answer × Store S
  answer (create input key) e st = answered_payment (create_payment S input key (world_at e st))
  answer (get id actor) e st = answered_payment (get_payment S id actor (world_at e st))
  answer (capture_of id) e st = answered_payment (capture_payment S id (world_at e st))
  answer (settle_of id) e st = answered_payment (settle_payment S id (world_at e st))
  answer (network_fee_of id fee) e st =
      answered_payment (settle_network_fee S id fee (world_at e st))
  answer (refund_of id amount) e st = answered_refund (refund_payment S id amount (world_at e st))

  get_payment-Agrees :
      (id : String) (actor : Actor) (w : World (Store S))
      → IsCalm w
      → let (r, w') = get_payment S id actor w in
        Agrees r (view S w'.db) (Calls.get_payment id actor (view S w.db))
  unfolding get_payment may_see ◌>>=◌
  get_payment-Agrees id actor w calm =
      let c0 = calm 0 in
      elim (Option-cases (S.payments.find id w.db.payments)) [
        | inl missing ↦
            (ground arith, record { payments = λ k. ground arith; ledgers = λ m c. ground arith })
        | inr (d, e) ↦
            (ground arith, record { payments = λ k. ground arith; ledgers = λ m c. ground arith })
      ]

  answer-Keeps :
      (c : Call) (e : Moment) (st : Store S)
      → IsPlain c
      → Keeps (view S) (answer c e st) (promised c e (view S st))
  unfolding answer
  answer-Keeps (create input key) e st h =
      Agrees-Keeps (view S) (create_payment S input key) (world_at e st) _
        (create_payment-Agrees_mongo S input key (world_at e st) λ n. refl)
  answer-Keeps (get id actor) e st h =
      Agrees-Keeps (view S) (get_payment S id actor) (world_at e st) _
        (get_payment-Agrees id actor (world_at e st) λ n. refl)
  answer-Keeps (capture_of id) e st h =
      Agrees-Keeps (view S) (capture_payment S id) (world_at e st) _
        (capture_payment-Agrees_mongo S id (world_at e st) λ n. refl)
  answer-Keeps (settle_of id) e st h =
      Agrees-Keeps (view S) (settle_payment S id) (world_at e st) _
        (settle_payment-Agrees_mongo S id (world_at e st) λ n. refl)
  answer-Keeps (network_fee_of id fee) e st h =
      Agrees-Keeps (view S) (settle_network_fee S id fee) (world_at e st) _
        (settle_network_fee-Agrees_mongo S id (world_at e st) (λ n. refl) fee h)
  answer-Keeps (refund_of id amount) e st h =
      AgreesRefund-Keeps (view S) (refund_payment S id amount) (world_at e st) _
        (refund_payment-AgreesRefund_mongo S id (world_at e st) (λ n. refl) amount)

  -- Whatever calls are made of CreatePayment, GetPayment, CapturePayment, SettlePayment,
  -- SettleNetworkFee and RefundPayment, in any order, each answered and with a network fee that is
  -- positive, every answer of the Mongo store is the one that the contract promises, and the payments
  -- and the ledgers at the end are those that the contract leads to, payments compared but for the
  -- times of their creation and their last update.
  pub run-Keeps_mongo :
      (cs : List (Call × Moment)) (st : Store S)
      → AllPlain cs
      → KeepsUndated (view S) (run answer cs st) (run promised cs (view S st))
  run-Keeps_mongo cs st plain =
      run-KeepsUndated answer (view S) (λ cs st. AllPlain cs)
        (λ c e cs st h. (answer-Keeps c e st h.0, h.1)) cs st plain
