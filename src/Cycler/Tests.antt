-- ===== src/Cycler/Tests.antt =====
-- The cycler over the Mongo store, on concrete subscriptions.
use gripe.Common.{
  ◌≤◌, String, ◌≡◌, ◌==◌, refl, none, some, false, [], ◌∷◌, eqb, is_blank, if◌then◌else◌,
}
use gripe.Int.{pos}
use gripe.Int.Word.{rem}
use gripe.Domain.{
  usd, card, monthly, active, captured, Payment, Subscription, currency_valid, method_valid,
}
use gripe.Storage.{matching}
use gripe.Query.{take, map, IsSorted, lookup_by}
use gripe.Exec.{World, answered, refused, ok, err, driver, after_command, ◌>>=◌}
use gripe.Mongo.{Store, SubscriptionDoc, PaymentDoc, to_domain, contains}
use gripe.Mongo.Create.{create_payment, refuses, initial_status}
use gripe.Mongo.Create.Stored.{IsFor, Adds, create_payment-Adds}
use gripe.Mongo.Subscriptions.{advance_subscription, subscription_to_domain}
use gripe.Mongo.Subscriptions.Due.{due_limit, is_due, is_earlier, due_subscriptions}
use gripe.Mongo.Tests.{server, world_of}
use gripe.Cycler.{idem_key, charge_of, charge_one}
use gripe.Cycler.Backends.{mongo_advancer}
use gripe.Cycler.Batches.{all_due, due_subscriptions-all_due}
use gripe.Cycler.Charges.{charge_one_charges_twice}

-- A monthly charge of 100.00 that is due at the time 5.
abbrev rent : SubscriptionDoc
rent = record {
  id = "sub_1";
  merchant_id = "mer_1";
  customer_id = "cus_1";
  amount_minor = pos 10000;
  currency = usd;
  method = card;
  cadence = monthly;
  status = active;
  next_charge_at = 5;
  next_cycle_idx = pos 3;
  created_at = 1;
  updated_at = none;
}

abbrev rent_world : World (Store server)
rent_world = record (world_of []) {
  db = record (world_of []).db {
    subscriptions = record rent { id = "sub_2"; next_charge_at = 2 } ∷ rent ∷ [];
  };
}

due_subscriptions-all_due_example :
    (due_subscriptions server 6 (pos 1) rent_world ≡ (
      ok (map subscription_to_domain (take (due_limit (pos 1)) (all_due server 6 rent_world.db))),
      after_command rent_world,
    ))
    × (due_limit (pos 1) ≤ 500)
    × IsSorted is_earlier (all_due server 6 rent_world.db)
    × ((id : String)
        → lookup_by ◌==◌ (λ d. d.id) id (all_due server 6 rent_world.db)
          ≡ matching (is_due 6) (server.subscriptions.find id rent_world.db.subscriptions))
due_subscriptions-all_due_example = due_subscriptions-all_due server 6 (pos 1) rent_world refl

-- The payment that the first charge of the rent makes.
abbrev rent_payment : Payment
rent_payment = record {
  id = "pay_a1";
  merchant_id = "mer_1";
  customer_id = "cus_1";
  amount_minor = pos 10000;
  currency = usd;
  method = card;
  status = captured;
  refunded_minor = pos 0;
  network_fee_minor = pos 0;
  created_at = 1;
  updated_at = 1;
}

abbrev rent_charge : Subscription
rent_charge = subscription_to_domain rent

create_payment-Adds_example :
    let (r, w') = create_payment server (charge_of rent_charge) "k" rent_world in
    Adds server (charge_of rent_charge) rent_payment rent_world.db w'.db
unfolding create_payment refuses is_blank currency_valid method_valid initial_status contains rem
    ◌>>=◌
create_payment-Adds_example =
    let (r, w') = create_payment server (charge_of rent_charge) "k" rent_world in
    create_payment-Adds server (charge_of rent_charge) "k" rent_payment rent_world w' refl

-- The command after the three of CreatePayment does not arrive.
abbrev cut_world : World (Store server)
cut_world = record rent_world { outcomes = λ n. if eqb n 3 then refused else answered }

-- The next tick, with other random ids.
abbrev next_world : World (Store server)
next_world = record rent_world {
  db = (charge_one (mongo_advancer server) rent_charge cut_world).1.db;
  random = λ n. "b2";
}

charge_one_charges_twice_example :
    let v' = (charge_one (mongo_advancer server) rent_charge next_world).1 in
    ((charge_one (mongo_advancer server) rent_charge cut_world).0 ≡ err driver)
    × (next_world.db.subscriptions ≡ cut_world.db.subscriptions)
    × (q : Payment) × IsFor (charge_of rent_charge) rent_payment
    × IsFor (charge_of rent_charge) q
    × (("pay_a1" == q.id) ≡ false)
    × ((c : PaymentDoc) × (server.payments.find "pay_a1" v'.db.payments ≡ some c)
        × (to_domain c ≡ rent_payment))
    × ((d : PaymentDoc) × (server.payments.find q.id v'.db.payments ≡ some d) × (to_domain d ≡ q))
unfolding charge_one create_payment refuses is_blank currency_valid method_valid initial_status
    contains advance_subscription rem ◌>>=◌
charge_one_charges_twice_example =
    charge_one_charges_twice server rent_charge rent_payment cut_world
      (create_payment server (charge_of rent_charge) (idem_key rent_charge) cut_world).1 next_world
      (charge_one (mongo_advancer server) rent_charge next_world).1 refl refl refl refl
