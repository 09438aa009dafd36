-- ===== src/FeeWorker/Tests.antt =====
-- The fee worker over the Mongo store, on concrete messages.
use gripe.Common.{ℕ, ◌+◌, ◌*◌, ◌/◌, ◌≡◌, refl, true, false, arith, some, if◌then◌else◌}
use gripe.Int.{pos, ◌+ℤ◌}
use gripe.Int.Word.{add64, mul64, quot, scale, wrap}
use gripe.Domain.{usd}
use gripe.Exec.{ok, ◌>>=◌}
use gripe.Mongo.{PaymentDoc}
use gripe.Mongo.Transitions.{has_no_network_fee, settle_network_fee}
use gripe.Mongo.Tests.{server, bank_payment, pending_world}
use gripe.FeeWorker.{PaymentCreated, mock_network_fee, handle_message}
use gripe.FeeWorker.Delivery.{
  handle_message-twice, handle_message-delivers, handle_message-overflow,
}

abbrev event : ℕ → PaymentCreated
event amount = record {
  payment_id = "pay_b";
  merchant_id = "mer_1";
  amount_minor = pos amount;
  currency = usd;
}

handle_message-twice_example :
    let w' =
      (handle_message (λ s. some (event 10000)) (settle_network_fee server) "{}" pending_world).1 in
    (handle_message (λ s. some (event 10000)) (settle_network_fee server) "{}" w').1.db ≡ w'.db
unfolding handle_message settle_network_fee mock_network_fee add64 mul64 quot scale wrap ◌+ℤ◌ ◌>>=◌
handle_message-twice_example =
    let w' =
      (handle_message (λ s. some (event 10000)) (settle_network_fee server) "{}" pending_world).1 in
    handle_message-twice server (λ s. some (event 10000)) "{}" "{}" (event 10000) (event 10000)
      pending_world w' w' refl refl refl refl refl

handle_message-delivers_example :
    let (r, w') =
      handle_message (λ s. some (event 10000)) (settle_network_fee server) "{}" pending_world in
    (r ≡ ok true)
    × (d' : PaymentDoc) × (server.payments.find "pay_b" w'.db.payments ≡ some d')
    × (d'.network_fee_minor ≡ (
        if has_no_network_fee bank_payment
        then pos (20 + 10000 * 25 / 10000)
        else bank_payment.network_fee_minor))
handle_message-delivers_example =
    handle_message-delivers server (λ s. some (event 10000)) "{}" (event 10000) 10000 bank_payment
      pending_world refl refl (omega arith) refl (λ n. refl)

handle_message-overflow_example :
    handle_message
      (λ s. some (event 400000000000000000))
      (settle_network_fee server)
      "{}"
      pending_world
    ≡ (ok false, pending_world)
handle_message-overflow_example =
    handle_message-overflow server (λ s. some (event 400000000000000000)) "{}"
      (event 400000000000000000) 400000000000000000 pending_world refl refl (omega arith)
      (omega arith)
