-- ===== src/Mongo/Listing/Tests.antt =====
-- The listing of the Mongo store on concrete documents.
use gripe.Common.{◌≡◌, ◌==◌, refl, arith, some, [], ◌∷◌, String}
use gripe.Int.{pos}
use gripe.Domain.{card}
use gripe.Domain.Views.{Filters}
use gripe.Storage.{matching}
use gripe.Query.{length, filter, sort, lookup_by, map}
use gripe.Query.Texts.{text_ltb-IsCollation}
use gripe.Exec.{World, ok}
use gripe.Listing.Pages.{follow}
use gripe.Listing.Tests.{codec, codec-IsCodec}
use gripe.Mongo.{Store, PaymentDoc, to_domain}
use gripe.Mongo.Listing.{matches, list_payments}
use gripe.Mongo.Listing.Complete.{follow-admitted_mongo}
use gripe.Mongo.Tests.{server, world_of, bank_payment}

-- Bank transfers of at least 50.00 since the third reading of the clock.
abbrev large_transfers : Filters
large_transfers = record {
  status = "";
  method = "bank_transfer";
  currency = "";
  merchant_id = "";
  from_time = 3;
  to_time = 0;
  min_minor = pos 5000;
  max_minor = pos 0;
}

abbrev newer_payment : PaymentDoc
newer_payment = record bank_payment { id = "pay_c"; created_at = 9 }

abbrev card_payment : PaymentDoc
card_payment = record bank_payment { id = "pay_d"; method = card }

abbrev pub listed_world : World (Store server)
listed_world = world_of (bank_payment ∷ card_payment ∷ newer_payment ∷ [])

follow-admitted_mongo_example :
    ((follow (list_payments server codec "mer_1" large_transfers) 1 "" listed_world).0
      ≡ ok (some (to_domain newer_payment ∷ to_domain bank_payment ∷ [])))
    × ((follow (list_payments server codec "mer_1" large_transfers) 1 "" listed_world).1.db
        ≡ listed_world.db)
    × ((id : String)
        → lookup_by ◌==◌ (λ d. d.id) id (newer_payment ∷ bank_payment ∷ [])
          ≡ matching
              (matches "mer_1" large_transfers)
              (server.payments.find id listed_world.db.payments))
unfolding filter sort matches map length
follow-admitted_mongo_example =
    follow-admitted_mongo server codec codec-IsCodec text_ltb-IsCollation "mer_1" large_transfers
      listed_world.db 1 listed_world (λ n. refl) refl (omega arith) (omega arith)
