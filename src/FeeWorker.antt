-- ===== src/FeeWorker.antt =====
-- cmd/fee-worker/main.go: the fee of a payment, and what becomes of one message of the queue. SQS
-- delivers a message at least once, until it is deleted; JSON is the library's.
pub mod Delivery
pub mod Tests
use gripe.Events.{PaymentCreated}
use gripe.Common.{String, Bool, true, false, Option, none, some, List, [], ◌∷◌}
use gripe.Int.{ℤ, pos}
use gripe.Int.Word.{add64, mul64, quot}
use gripe.Domain.{Payment, Currency}
use gripe.Exec.{Action, Result, ok, err, attempt, pure, ◌>>=◌}

unfoldable pub mock_network_fee : ℤ → ℤ
mock_network_fee amount_minor = add64 (pos 20) (quot (mul64 amount_minor 25) 10000)

-- A message is deleted unless the store returned an error.
abbrev pub is_settled : Result Payment → Bool
is_settled (ok p) = true
is_settled (err e) = false

module _ {D : Type 0} (decode : String → Option PaymentCreated)
    (settle_network_fee : String → ℤ → Action D Payment) where
  -- A message that is no event is dropped.
  unfoldable pub settle_event : Option PaymentCreated → Action D Bool
  unfolding attempt
  settle_event none = pure true
  settle_event (some ev) = do
    r ← attempt (settle_network_fee ev.payment_id (mock_network_fee ev.amount_minor))
    pure (is_settled r)

  -- Whether the message is deleted.
  unfoldable pub handle_message : String → Action D Bool
  unfolding settle_event
  handle_message body = settle_event (decode body)

  abbrev keep_unless : Bool → String → List String → List String
  keep_unless true body left = left
  keep_unless false body left = body ∷ left

  -- The loop over the messages of one answer: those that are left in flight.
  unfoldable pub handle_batch : List String → Action D (List String)
  unfolding handle_message
  handle_batch [] = pure []
  handle_batch (body ∷ messages) = do
    deleted ← handle_message body
    left ← handle_batch messages
    pure (keep_unless deleted body left)
