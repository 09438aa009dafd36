-- ===== src/Cycler/Backends.antt =====
-- The two stores as the cycler's interface.
use gripe.Mongo
use gripe.Mongo.Create.{create_payment as mongo_create_payment}
use gripe.Mongo.Subscriptions.{advance_subscription as mongo_advance_subscription}
use gripe.Mongo.Subscriptions.Due.{due_subscriptions as mongo_due_subscriptions}
use gripe.Postgres
use gripe.Postgres.Create.{create_payment as postgres_create_payment}
use gripe.Postgres.Subscriptions.{
  due_subscriptions as postgres_due_subscriptions,
  advance_subscription as postgres_advance_subscription,
}
use gripe.Cycler.{Advancer}

abbrev pub mongo_advancer : (S : Mongo.Server) → Advancer (Mongo.Store S)
mongo_advancer S = record {
  due_subscriptions = mongo_due_subscriptions S;
  create_payment = mongo_create_payment S;
  advance_subscription = mongo_advance_subscription S;
}

abbrev pub postgres_advancer : (S : Postgres.Server) → Advancer (Postgres.Store S)
postgres_advancer S = record {
  due_subscriptions = postgres_due_subscriptions S;
  create_payment = postgres_create_payment S;
  advance_subscription = postgres_advance_subscription S;
}
