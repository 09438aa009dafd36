-- ===== src/Postgres/Listing/Tests.antt =====
-- The listing of the PostgreSQL store on concrete rows.
use gripe.Common.{◌≡◌, ◌==◌, refl, arith, some, [], ◌∷◌, String}
use gripe.Int.{pos}
use gripe.Domain.{card}
use gripe.Mongo.Tests as MongoTests
use gripe.Mongo.Listing as MongoListing
use gripe.Mongo.Listing.Tests.{listed_world as mongo_world}
use gripe.Postgres.Listing.Backends.{list_payments-backends}
use gripe.Mongo.Listing.{matches}
use gripe.Domain.Views.{Filters}
use gripe.Storage.{matching}
use gripe.Query.{length, filter, sort, lookup_by, map}
use gripe.Query.Texts.{text_ltb-IsCollation}
use gripe.Exec.{World, ok}
use gripe.Listing.Pages.{follow}
use gripe.Listing.Tests.{codec, codec-IsCodec}
use gripe.Postgres.{Store, PaymentRow, to_payment}
use gripe.Postgres.Listing.{list_payments, conditions, condition_if, scope_conditions, all_hold}
use gripe.Postgres.Listing.Complete.{admits, follow-admitted_postgres}
use gripe.Postgres.Tests.{server, pending_world, bank_payment}

-- Bank transfers of at least 50.00 since the third reading of the clock.
abbrev large_transfers : Filters
large_transfers = record {
  status = "";
  method = "bank_transfer";
  currency = "";
  merchant_id = "";
  from_time = 3;
  to_time = 0;
  min_minor = pos 5000;
  max_minor = pos 0;
}

abbrev newer_payment : PaymentRow
newer_payment = record bank_payment { id = "pay_c"; created_at = 9 }

abbrev card_payment : PaymentRow
card_payment = record bank_payment { id = "pay_d"; method = card }

abbrev listed_world : World (Store server)
listed_world = record pending_world {
  db = record pending_world.db {
    tables = record pending_world.db.tables {
      payments = bank_payment ∷ card_payment ∷ newer_payment ∷ [];
    };
  };
}

follow-admitted_postgres_example :
    ((follow (list_payments server codec "mer_1" large_transfers) 1 "" listed_world).0
      ≡ ok (some (to_payment newer_payment ∷ to_payment bank_payment ∷ [])))
    × ((follow (list_payments server codec "mer_1" large_transfers) 1 "" listed_world).1.db
        ≡ listed_world.db)
    × ((id : String)
        → lookup_by ◌==◌ (λ r. r.id) id (newer_payment ∷ bank_payment ∷ [])
          ≡ matching
              (admits "mer_1" large_transfers)
              (server.payments.find id listed_world.db.tables.payments))
unfolding filter sort conditions condition_if scope_conditions all_hold map length
follow-admitted_postgres_example =
    follow-admitted_postgres server codec codec-IsCodec text_ltb-IsCollation "mer_1" large_transfers
      listed_world.db 1 listed_world (λ n. refl) refl (omega arith) (omega arith)

list_payments-backends_example :
    (MongoListing.list_payments MongoTests.server codec "mer_1" large_transfers "" mongo_world).0
    ≡ (list_payments server codec "mer_1" large_transfers "" listed_world).0
list_payments-backends_example =
    list_payments-backends codec text_ltb-IsCollation MongoTests.server server "mer_1"
      large_transfers "" mongo_world listed_world refl refl (λ id. ground arith)
