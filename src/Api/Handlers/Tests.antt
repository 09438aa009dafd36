-- ===== src/Api/Handlers/Tests.antt =====
-- The handlers over the Mongo store on concrete documents.
use gripe.Common.{String, ◌≡◌, refl, none, some, [], ◌∷◌, ◌==◌, eq_iff, false}
use gripe.Int.{pos}
use gripe.Domain.{Actor, merchant, usd, card, captured, daily, active}
use gripe.Storage.Listed.{listed}
use gripe.Exec.{World, answered, ok}
use gripe.Mongo.{Server, Store, PaymentDoc, SubscriptionDoc}
use gripe.Mongo.Subscriptions.{set_cancelled}
use gripe.Api.{Request}
use gripe.Api.Handlers.{
  Libraries, capture_payment_handler, refund_payment_handler, cancel_subscription_handler,
}
use gripe.Api.Handlers.Backends.{mongo_backend}
use gripe.Api.Handlers.Access.{IsDenied, foreign_merchant-IsDenied, cancel_subscription_of_another}

abbrev pub server : Server
server = record {
  payments = listed ◌==◌ (λ d. d.id) eq_iff;
  merchants = listed ◌==◌ (λ d. d.id) eq_iff;
  customers = listed ◌==◌ (λ d. d.id) eq_iff;
  subscriptions = listed ◌==◌ (λ d. d.id) eq_iff;
}

abbrev pub libraries : Libraries (Store server)
libraries = record {
  payment_json = λ p. p.id;
  refund_json = λ r. r.id;
  subscription_json = λ s. s.id;
  error_json = λ e. e;
  error_text = λ e. "error";
  decode_payment = λ b. none;
  decode_refund = λ b. some (pos 5);
  decode_subscription = λ b. none;
  parse_rfc3339 = λ t. none;
  publish_payment_created = λ p w. (ok tt, w);
}

abbrev pub payment : PaymentDoc
payment = record {
  id = "pay_1";
  merchant_id = "mer_1";
  customer_id = "cus_1";
  amount_minor = pos 10000;
  currency = usd;
  method = card;
  status = captured;
  refunded_minor = pos 0;
  network_fee_minor = pos 0;
  created_at = 7;
  updated_at = 7;
  refunds = [];
}

abbrev pub subscription : SubscriptionDoc
subscription = record {
  id = "sub_1";
  merchant_id = "mer_1";
  customer_id = "cus_1";
  amount_minor = pos 900;
  currency = usd;
  method = card;
  cadence = daily;
  status = active;
  next_charge_at = 50;
  next_cycle_idx = pos 0;
  created_at = 7;
  updated_at = none;
}

abbrev pub world : World (Store server)
world = record {
  db = record {
    payments = payment ∷ [];
    merchants = [];
    customers = [];
    subscriptions = subscription ∷ [];
    seen = [];
  };
  outcomes = λ n. answered;
  readings = λ n. 60;
  random = λ n. "a1";
}

abbrev pub intruder : Actor
intruder = record { role = merchant; id = "mer_2" }

abbrev pub request_for : String → Request
request_for id = record {
  method = "POST";
  path = "/v1";
  id = id;
  idempotency_key = "key-1";
  actor = some intruder;
  body = some "{}";
}

foreign_merchant-IsDenied_example :
    IsDenied world
      (capture_payment_handler libraries (some (mongo_backend server)) (request_for "pay_1") world)
    × IsDenied world
        (refund_payment_handler libraries (some (mongo_backend server)) (request_for "pay_1") world)
foreign_merchant-IsDenied_example =
    foreign_merchant-IsDenied server libraries (request_for "pay_1") intruder payment world refl
      refl refl refl

cancel_subscription_of_another_example :
    let (r, w') =
      cancel_subscription_handler libraries
        (some (mongo_backend server))
        (request_for "sub_1")
        world in
    (r ≡ ok (record { status = 403; body = "not your subscription"; replayed = false }))
    × (server.subscriptions.find "sub_1" w'.db.subscriptions ≡ some (set_cancelled 60 subscription))
cancel_subscription_of_another_example =
    cancel_subscription_of_another server libraries (request_for "sub_1") intruder subscription
      world refl refl refl refl refl
