-- ===== src/Events.antt =====
-- internal/events/events.go: the event of a new payment, and the queue that it is sent to. JSON, the
-- configuration of AWS and the SQS client are parameters.
pub mod Tests
use gripe.Common.{String, Option, none, some, ◌==◌, if◌then◌else◌}
use gripe.Int.{ℤ}
use gripe.Domain.{Payment, Currency}
use gripe.Exec.{Action, Result, ok, err, driver, pure, raise, if_found}

pub record PaymentCreated : Type 0 where
  pub payment_id : String
  pub merchant_id : String
  pub amount_minor : ℤ
  pub currency : Currency

-- The body of the event that PublishPaymentCreated sends.
abbrev pub event_of : Payment → PaymentCreated
event_of pay = record {
  payment_id = pay.id;
  merchant_id = pay.merchant_id;
  amount_minor = pay.amount_minor;
  currency = pay.currency;
}

-- SQSPublisher; a nil one is `none`.
pub record Publisher : Type 0 where
  pub url : String

-- NewSQS: without a queue there is no publisher, and AWS is not looked at.
unfoldable pub new_sqs : String → Result Unit → Result (Option Publisher)
new_sqs queue_url config =
    if queue_url == ""
    then ok none
    else elim config [ err e ↦ err e | ok u ↦ ok (some (record { url = queue_url })) ]

module _ {D : Type 0} (marshal : PaymentCreated → Option String)
    (send_message : String → String → Action D Unit) where
  unfoldable pub publish_payment_created : Option Publisher → Payment → Action D Unit
  publish_payment_created none pay = pure tt
  publish_payment_created (some p) pay =
      if_found (marshal (event_of pay)) (raise driver) λ body. send_message p.url body
