-- ===== src/Backends.antt =====
-- store/mongo and store/postgres behind one interface: the same calls on both, each call at the same
-- moment.
pub mod Tests
use gripe.Common.{List, ◌≡◌, ◌∙◌, sym, ap}
use gripe.Contract.{View, SameView, SameView-path}
use gripe.Contract.Calls.{
  Call, Moment, Answer, promised, run, AllPlain, undated_answers, undated_view,
}
use gripe.Mongo.{Server as MongoServer, Store as MongoStore}
use gripe.Mongo.Calls.{answer as mongo_answer, run-Keeps_mongo}
use gripe.Mongo.View.{view as mongo_view}
use gripe.Postgres.{Server as PostgresServer, Store as PostgresStore}
use gripe.Postgres.Calls.{answer as postgres_answer, AllFit, run-Keeps_postgres}
use gripe.Postgres.View.{view as postgres_view}
use gripe.Postgres.Sound.{IsSound}

module _ (S : MongoServer) (T : PostgresServer) where
  -- From two stores, one on each backend, with the same payments and ledgers, whatever calls are
  -- made on both of CreatePayment, GetPayment, CapturePayment, SettlePayment, SettleNetworkFee and
  -- RefundPayment, in any order, each answered and with the same new id and reading of the clock on
  -- both, with a network fee that is positive and, on PostgreSQL, a refund whose id is free and
  -- whose amount adds up to an int64 with what its payment has refunded so far, and tables that are
  -- linked as they should be: the backends give the same answers, and have the same payments and
  -- ledgers at the end, payments compared but for the times of their creation and their last
  -- update.
  pub run-backends :
      (cs : List (Call × Moment)) (st : MongoStore S) (su : PostgresStore T)
      → SameView (mongo_view S st) (postgres_view T su.tables)
      → AllPlain cs
      → IsSound T su
      → AllFit T cs su
      → let (answers, st') = run (mongo_answer S) cs st in
        let (answers', su') = run (postgres_answer T) cs su in
        (undated_answers answers ≡ undated_answers answers')
        × (undated_view (mongo_view S st') ≡ undated_view (postgres_view T su'.tables))
  run-backends cs st su same plain sound free =
      let start = SameView-path (mongo_view S st) (postgres_view T su.tables) same in
      let (answers, seen) = run-Keeps_mongo S cs st plain in
      let (answers', seen') = run-Keeps_postgres T cs su plain sound free in
      (
        answers ∙ (ap (λ v. undated_answers (run promised cs v).0) start ∙ sym answers'),
        seen ∙ (ap (λ v. undated_view (run promised cs v).1) start ∙ sym seen'),
      )
