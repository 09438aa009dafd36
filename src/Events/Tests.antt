-- ===== src/Events/Tests.antt =====
-- The publisher on concrete payments.
use gripe.Common.{String, ◌≡◌, refl, none, some}
use gripe.Exec.{World, Action, ok, err, driver, answered, pure, if_found}
use gripe.Mongo.{to_domain}
use gripe.Mongo.Tests.{bank_payment}
use gripe.Events.{new_sqs, publish_payment_created}

-- A client that keeps the last message, with the name of its queue.
abbrev last_message : String → String → Action (String × String) Unit
last_message url body w = (ok tt, record w { db = (url, body) })

abbrev idle : World (String × String)
idle = record { db = ("", ""); outcomes = λ n. answered; readings = λ n. n; random = λ n. "a1" }

without_queue : new_sqs "" (err driver) ≡ ok none
unfolding new_sqs
without_queue = refl

nothing_sent :
    publish_payment_created (λ e. some e.payment_id) last_message none (to_domain bank_payment) idle
    ≡ (ok tt, idle)
unfolding publish_payment_created pure
nothing_sent = refl

sent :
    (publish_payment_created
      (λ e. some e.payment_id)
      last_message
      (some (record { url = "q" }))
      (to_domain bank_payment)
      idle).1.db
    ≡ ("q", "pay_b")
unfolding publish_payment_created if_found
sent = refl
