-- ===== src/Api/Reads/Tests.antt =====
-- The handlers that read, over the Mongo store on concrete documents.
use gripe.Common.{refl, some, ◌==◌, trim_space, if◌then◌else◌}
use gripe.Int.{pos}
use gripe.Query.Texts.{text_ltb}
use gripe.Listing.Tests.{codec}
use gripe.Api.Actors.{actor_middleware}
use gripe.Api.Reads.{Formats, Query, list_payments_handler}
use gripe.Api.Reads.Backends.{mongo_reader}
use gripe.Api.Reads.Own.{Shows, list_payments_handler-Shows}
use gripe.Api.Handlers.Tests.{server, libraries, world, request_for}

abbrev pub formats : Formats
formats = record {
  page_json = λ p. p.next_cursor;
  balances_json = λ b. "balances";
  volume_json = λ v. "volume";
  balance_rows_json = λ r. "rows";
  totals_json = λ t. "totals";
  parse_int = λ s. some (pos 1);
}

-- ?merchant_id=mer_1, which is not the caller's.
abbrev pub query_of_another : Query
query_of_another name = if name == "merchant_id" then "mer_1" else ""

list_payments_handler-Shows_example : Shows formats "mer_2" world (
    actor_middleware libraries.error_json
      (λ r.
        list_payments_handler libraries formats
          (some (mongo_reader codec text_ltb (λ t. "a day") server))
          r
          query_of_another)
      "merchant"
      " mer_2"
      (request_for "")
      world)
unfolding trim_space
list_payments_handler-Shows_example =
    list_payments_handler-Shows server codec libraries formats text_ltb (λ t. "a day")
      (request_for "") query_of_another "merchant" " mer_2" world refl
