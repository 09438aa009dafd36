-- ===== src/Api/Handlers/Backends.antt =====
-- internal/store/store.go: the Mongo store as the handlers' interface.
use gripe.Mongo.{Server, Store}
use gripe.Mongo.Create.{create_payment}
use gripe.Mongo.Transitions.{get_payment, capture_payment, settle_payment}
use gripe.Mongo.Refunds.{refund_payment, settle_refund}
use gripe.Mongo.Subscriptions.{create_subscription, cancel_subscription}
use gripe.Api.Handlers.{Backend}

-- RefundPayment takes the idempotency key too, and does not use it.
abbrev pub mongo_backend : (S : Server) → Backend (Store S)
mongo_backend S = record {
  create_payment = create_payment S;
  get_payment = get_payment S;
  capture_payment = capture_payment S;
  refund_payment = λ id amount key. refund_payment S id amount;
  settle_payment = settle_payment S;
  settle_refund = settle_refund S;
  create_subscription = create_subscription S;
  cancel_subscription = cancel_subscription S;
}
