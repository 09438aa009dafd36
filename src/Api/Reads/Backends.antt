-- ===== src/Api/Reads/Backends.antt =====
-- internal/store/store.go: the two stores as the interface of the handlers that read.
use gripe.Common.{String, Bool}
use gripe.Domain.{Time}
use gripe.Listing.{Codec}
use gripe.Mongo
use gripe.Mongo.Listing as MongoListing
use gripe.Mongo.Reports as MongoReports
use gripe.Postgres
use gripe.Postgres.Listing as PostgresListing
use gripe.Postgres.Reports as PostgresReports
use gripe.Api.Reads.{Reader}

module _ (codec : Codec) (text_lt : String → String → Bool) (day_of : Time → String) where
  abbrev pub mongo_reader : (S : Mongo.Server) → Reader (Mongo.Store S)
  mongo_reader S = record {
    list_merchant_payments = MongoListing.list_merchant_payments S codec;
    list_all_payments = MongoListing.list_all_payments S codec;
    get_merchant_balances = MongoReports.get_merchant_balances S;
    admin_volume_report = MongoReports.admin_volume_report S text_lt day_of;
    admin_balance_report = MongoReports.admin_balance_report S text_lt;
    admin_revenue_report = MongoReports.admin_revenue_report S text_lt;
  }

  abbrev pub postgres_reader : (S : Postgres.Server) → Reader (Postgres.Store S)
  postgres_reader S = record {
    list_merchant_payments = PostgresListing.list_merchant_payments S codec;
    list_all_payments = PostgresListing.list_all_payments S codec;
    get_merchant_balances = PostgresReports.get_merchant_balances S text_lt;
    admin_volume_report = PostgresReports.admin_volume_report S text_lt day_of;
    admin_balance_report = PostgresReports.admin_balance_report S text_lt;
    admin_revenue_report = PostgresReports.admin_revenue_report S text_lt;
  }
