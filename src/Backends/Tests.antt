-- ===== src/Backends/Tests.antt =====
-- Both stores on concrete calls.
use gripe.Common.{List, [], ◌∷◌, ◌≡◌, ◌==◌, String, refl, arith, false, eq_iff, is_blank}
use gripe.Int.{pos, ◌+ℤ◌, ◌-ℤ◌}
use gripe.Int.Word.{mul64, add64, sub64, quot, rem, scale, wrap}
use gripe.Domain.{admin, currency_valid, method_valid, currency_eq}
use gripe.Domain.Money.{gripe_fee}
use gripe.Exec.{World, ok, answered, ◌>>=◌}
use gripe.Contract.Calls.{
  Call, AllPlain, KeepsUndated, undated_answers, undated_view, create, get, settle_of,
  network_fee_of, refund_of, Moment, promised, run,
}
use gripe.Mongo.{Store as MongoStore}
use gripe.Mongo.Calls.{answer as mongo_answer, run-Keeps_mongo}
use gripe.Mongo.View.{view as mongo_view}
use gripe.Mongo.Tests.{server as mongo_server, input}
use gripe.Postgres.{
  Store as PostgresStore, begin, tx_exec, commit, pool_exec, select_payment_by_id, credit_balance,
}
use gripe.Postgres.Create.{create_payment, contains, upsert_parties, refuses, initial_status}
use gripe.Postgres.Transitions.{settle_payment, settle_network_fee}
use gripe.Postgres.Refunds.{refund_payment, flip_if_full}
use gripe.Postgres.Calls.{answer as postgres_answer, AllFit, run-Keeps_postgres}
use gripe.Postgres.View.{view as postgres_view}
use gripe.Postgres.Sound.{IsSound}
use gripe.Postgres.Tests.{server as postgres_server}
use gripe.Backends.{run-backends}
use gripe.Storage.{Collection}
use gripe.Storage.Listed.{listed}
use gripe.Api.Idempotency.{IdempotencyRecord}
use gripe.Mongo.Idempotency as MongoKeys
use gripe.Mongo.Idempotency.{IdemDoc, get_record-put_record_mongo}
use gripe.Postgres.Idempotency as PostgresKeys
use gripe.Postgres.Idempotency.{IdemRow, get_record-put_record_postgres}

abbrev calls : List (Call × Moment)
calls =
    (create input "k", record { time = 1; random = "a1" })
    ∷ (settle_of "pay_a1", record { time = 2; random = "a2" })
    ∷ (network_fee_of "pay_a1" (pos 45), record { time = 3; random = "a3" })
    ∷ (refund_of "pay_a1" (pos 4000), record { time = 4; random = "a4" })
    ∷ (refund_of "pay_a1" (pos 7000), record { time = 5; random = "a5" })
    ∷ (get "pay_a1" (record { role = admin; id = "ops" }), record { time = 6; random = "a6" })
    ∷ []

abbrev empty_mongo : MongoStore mongo_server
empty_mongo = record {
  payments = [];
  merchants = [];
  customers = [];
  subscriptions = [];
  seen = [];
}

abbrev empty_postgres : PostgresStore postgres_server
empty_postgres = record {
  tables = record {
    payments = [];
    merchants = [];
    customers = [];
    refunds = [];
    balances = [];
    subscriptions = [];
  };
  seen = [];
}

empty_postgres-IsSound : IsSound postgres_server empty_postgres
unfolding contains
empty_postgres-IsSound = record {
  merchant_of = λ k r h. ground arith;
  customer_of = λ k r h. ground arith;
  payment_of = λ k f h. ground arith;
  seen_merchant = λ id h. ground arith;
  seen_customer = λ id h. ground arith;
  subscriber_of = λ k r h. absurd (ground arith);
  fee_set = λ k r x h is. ground arith;
}

calls-AllPlain : AllPlain calls
calls-AllPlain = (tt, (tt, (refl, (tt, (tt, (tt, tt))))))

calls_fit : AllFit postgres_server calls empty_postgres
unfolding AllFit postgres_answer create_payment settle_payment settle_network_fee refund_payment
    flip_if_full gripe_fee mul64 add64 sub64 quot rem scale wrap ◌+ℤ◌ ◌-ℤ◌ currency_eq ◌>>=◌ refuses
    currency_valid method_valid is_blank initial_status contains begin tx_exec commit pool_exec
    select_payment_by_id credit_balance upsert_parties
calls_fit = (tt, (tt, (tt, ((refl, refl), ((refl, refl), (tt, tt))))))

run-Keeps_mongo_example :
    KeepsUndated
      (mongo_view mongo_server)
      (run (mongo_answer mongo_server) calls empty_mongo)
      (run promised calls (mongo_view mongo_server empty_mongo))
run-Keeps_mongo_example = run-Keeps_mongo mongo_server calls empty_mongo calls-AllPlain

run-Keeps_postgres_example :
    KeepsUndated
      (λ st. postgres_view postgres_server st.tables)
      (run (postgres_answer postgres_server) calls empty_postgres)
      (run promised calls (postgres_view postgres_server empty_postgres.tables))
run-Keeps_postgres_example =
    run-Keeps_postgres postgres_server calls empty_postgres calls-AllPlain empty_postgres-IsSound
      calls_fit

run-backends_example :
    let (answers, st) = run (mongo_answer mongo_server) calls empty_mongo in
    let (answers', su) = run (postgres_answer postgres_server) calls empty_postgres in
    (undated_answers answers ≡ undated_answers answers')
    × (undated_view (mongo_view mongo_server st)
        ≡ undated_view (postgres_view postgres_server su.tables))
run-backends_example =
    run-backends mongo_server postgres_server calls empty_mongo empty_postgres
      (record { payments = λ k. refl; ledgers = λ m c. refl }) calls-AllPlain empty_postgres-IsSound
      calls_fit

-- The records of the keys, on both stores.
abbrev record_of : String → IdempotencyRecord
record_of hash = record {
  key = "k1";
  actor_role = "merchant";
  actor_id = "mer_1";
  body_hash = hash;
  status_code = 201;
  response = "{}";
  created_at = 5_000_700;
  expires_at = 9_000_700;
}

abbrev docs : Collection ◌==◌ (λ (d : IdemDoc). d.key)
docs = listed ◌==◌ (λ d. d.key) eq_iff

abbrev rows : Collection ◌==◌ (λ (d : IdemRow). d.key)
rows = listed ◌==◌ (λ d. d.key) eq_iff

abbrev calm_world : {D : Type 0} → D → World D
calm_world d = record { db = d; outcomes = λ n. answered; readings = λ n. n; random = λ n. "a1" }

get_record-put_record_mongo_example :
    let w = calm_world {D = docs.State} [] in
    let v = calm_world (MongoKeys.put_record docs (record_of "h") w).1.db in
    ((MongoKeys.put_record docs (record_of "h") w).0 ≡ ok MongoKeys.stored)
    × ((MongoKeys.get_record docs "k1" v).0
        ≡ ok (record (record_of "h") { created_at = 5_000_000; expires_at = 9_000_000 }))
    × ((k : String)
        → ("k1" == k) ≡ false
        → (MongoKeys.get_record docs k v).0 ≡ (MongoKeys.get_record docs k w).0)
    × ((r : IdempotencyRecord)
        → r.key ≡ "k1"
        → ((MongoKeys.put_record docs r v).0 ≡ ok MongoKeys.exists)
          × ((MongoKeys.put_record docs r v).1.db ≡ v.db))
get_record-put_record_mongo_example =
    get_record-put_record_mongo docs (record_of "h") (calm_world {D = docs.State} [])
      (calm_world (MongoKeys.put_record docs (record_of "h") (calm_world {D = docs.State} [])).1.db)
      (λ n. refl) (λ n. refl) refl refl

get_record-put_record_postgres_example :
    let w = calm_world {D = rows.State} [] in
    let v = calm_world (PostgresKeys.put_record rows (record_of "h") w).1.db in
    ((PostgresKeys.put_record rows (record_of "h") w).0 ≡ ok PostgresKeys.stored)
    × ((PostgresKeys.get_record rows "k1" v).0
        ≡ ok (record (record_of "h") { created_at = 5_000_000; expires_at = 9_000_000 }))
    × ((k : String)
        → ("k1" == k) ≡ false
        → (PostgresKeys.get_record rows k v).0 ≡ (PostgresKeys.get_record rows k w).0)
    × ((r : IdempotencyRecord)
        → r.key ≡ "k1"
        → (r.response == "") ≡ false
        → ((PostgresKeys.put_record rows r v).0 ≡ ok PostgresKeys.exists)
          × ((PostgresKeys.put_record rows r v).1.db ≡ v.db))
get_record-put_record_postgres_example =
    get_record-put_record_postgres rows (record_of "h") (calm_world {D = rows.State} [])
      (calm_world
        (PostgresKeys.put_record rows (record_of "h") (calm_world {D = rows.State} [])).1.db)
      (λ n. refl) (λ n. refl) refl refl refl
