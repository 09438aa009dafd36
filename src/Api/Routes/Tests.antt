-- ===== src/Api/Routes/Tests.antt =====
-- The routes over the Mongo store on concrete documents.
use gripe.Common.{◌≡◌, refl, some, List, [], ◌==◌, eq_iff, trim_space}
use gripe.Domain.{customer}
use gripe.Query.Texts.{text_ltb}
use gripe.Storage.{Collection}
use gripe.Storage.Listed.{listed}
use gripe.Exec.{World, ok, answered}
use gripe.Mongo.{Store}
use gripe.Listing.Tests.{codec}
use gripe.Api.{Response}
use gripe.Api.Actors.{role_of}
use gripe.Api.Idempotency.{IdempotencyRecord, Site}
use gripe.Api.Handlers.Backends.{mongo_backend}
use gripe.Api.Handlers.Tests.{server, libraries, world, request_for}
use gripe.Api.Reads.Backends.{mongo_reader}
use gripe.Api.Reads.Tests.{formats, query_of_another}
use gripe.Api.Routes.{Route, Service, serve_route}
use gripe.Api.Routes.Guarded.{serve_route-admin_only}

abbrev keys : Collection ◌==◌ (λ (r : IdempotencyRecord). r.key)
keys = listed ◌==◌ (λ r. r.key) eq_iff

abbrev service : Service (Store server)
service = record {
  backend = mongo_backend server;
  reader = mongo_reader codec text_ltb (λ t. "a day") server;
  ping = λ w. (ok tt, w);
}

abbrev site_world : World (Site (Store server) (List IdempotencyRecord))
site_world = record {
  db = record { app = world.db; records = [] };
  outcomes = λ n. answered;
  readings = λ n. n;
  random = λ n. "a1";
}

serve_route-admin_only_example :
    (response : Response) × (serve_route keys libraries formats
        (λ s. s)
        (λ e. "{}")
        (some service)
        Route.settle_payment
        query_of_another
        "customer"
        "cus_1"
        (request_for "pay_1")
        site_world
      ≡ (ok response, site_world))
    × (response.status ≡ 403)
unfolding trim_space role_of
serve_route-admin_only_example =
    serve_route-admin_only keys libraries formats (λ s. s) (λ e. "{}") service Route.settle_payment
      query_of_another "customer" "cus_1" customer (request_for "pay_1") site_world refl refl refl
      refl refl
