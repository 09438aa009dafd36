-- ===== src/Api/Routes.antt =====
-- internal/api/server.go: the routes, each with the middleware that stands before its handler. The
-- choice of a route by method and path is Go's ServeMux; the headers and the query come beside the
-- request.
pub mod Guarded
pub mod Tests
use gripe.Common.{ℕ, String, Bool, true, false, Option, none, some, ◌==◌, if◌then◌else◌}
use gripe.Storage.{Collection}
use gripe.Domain.Cadence.{day_length}
use gripe.Exec.{Action, StoreError, Result, ok, err, attempt, pure, ◌>>=◌}
use gripe.Api.{Request, Response}
use gripe.Api.Actors.{actor_middleware}
use gripe.Api.Idempotency.{IdempotencyRecord, Site, run_inner, idempotency_middleware}
use gripe.Api.Handlers.{
  Backend, Libraries, write_json, refuse, create_payment_handler, get_payment_handler,
  refund_payment_handler, capture_payment_handler, settle_payment_handler, settle_refund_handler,
  create_subscription_handler, cancel_subscription_handler,
}
use gripe.Api.Reads.{
  Reader, Formats, Query, list_payments_handler, get_balances_handler, admin_volume_report_handler,
  admin_balance_report_handler, admin_revenue_report_handler,
}

pub data Route : Type 0 where
  healthz list_payments get_payment volume_report balance_report revenue_report balances : Route
  settle_payment settle_refund create_payment capture_payment refund_payment : Route
  create_subscription cancel_subscription : Route

abbrev pub is_unprotected : Route → Bool
is_unprotected Route.healthz = true
is_unprotected _ = false

-- `idempotencyTTL`: 24 hours.
abbrev pub idempotency_ttl : ℕ
idempotency_ttl = day_length

-- The store of a Server; it is nil before the process has connected.
pub record Service (D : Type 0) : Type 0 where
  pub backend : Backend D
  pub reader : Reader D
  pub ping : Action D Unit

abbrev pub backend_of : {D : Type 0} → Option (Service D) → Option (Backend D)
backend_of none = none
backend_of (some s) = some s.backend

abbrev pub reader_of : {D : Type 0} → Option (Service D) → Option (Reader D)
reader_of none = none
reader_of (some s) = some s.reader

-- `health_json` is the body with the backend's name and the error of the ping.
module _ {D : Type 0} (Keys : Collection ◌==◌ (λ (r : IdempotencyRecord). r.key)) (L : Libraries D)
    (F : Formats) (sha256_hex : String → String) (health_json : Option StoreError → String)
    (store : Option (Service D)) where
  abbrev health_reply : Result Unit → Action D Response
  health_reply (ok u) = write_json 200 (health_json none)
  health_reply (err e) = write_json 200 (health_json (some e))

  abbrev pub health : Option (Service D) → Action D Response
  health none = write_json 200 (health_json none)
  health (some s) = do r ← attempt s.ping; health_reply r

  abbrev pub Handler : Type 0
  Handler = Request → Action (Site D Keys.State) Response

  -- The handler of a read or a settlement, without the idempotency middleware.
  abbrev plain : (Request → Action D Response) → Handler
  plain handler request = run_inner (handler request)

  -- A write: without a store there is nothing to keep its response in.
  abbrev written : Option (Service D) → (Request → Action D Response) → Handler
  written none handler request = run_inner (refuse L 503 "store not configured")
  written (some s) handler request =
      idempotency_middleware Keys L.error_json sha256_hex idempotency_ttl handler request

  -- What stands behind actorMiddleware on a route.
  unfoldable pub handler_of : Route → Query → Handler
  unfolding run_inner idempotency_middleware
  handler_of Route.healthz query = plain (λ r. health store)
  handler_of Route.list_payments query =
      plain (λ r. list_payments_handler L F (reader_of store) r query)
  handler_of Route.get_payment query = plain (get_payment_handler L (backend_of store))
  handler_of Route.volume_report query =
      plain (λ r. admin_volume_report_handler L F (reader_of store) r query)
  handler_of Route.balance_report query = plain (admin_balance_report_handler L F (reader_of store))
  handler_of Route.revenue_report query = plain (admin_revenue_report_handler L F (reader_of store))
  handler_of Route.balances query = plain (λ r. get_balances_handler L F (reader_of store) r query)
  handler_of Route.settle_payment query = plain (settle_payment_handler L (backend_of store))
  handler_of Route.settle_refund query = plain (settle_refund_handler L (backend_of store))
  handler_of Route.create_payment query =
      written store (create_payment_handler L (backend_of store))
  handler_of Route.capture_payment query =
      written store (capture_payment_handler L (backend_of store))
  handler_of Route.refund_payment query =
      written store (refund_payment_handler L (backend_of store))
  handler_of Route.create_subscription query =
      written store (create_subscription_handler L (backend_of store))
  handler_of Route.cancel_subscription query =
      written store (cancel_subscription_handler L (backend_of store))

  -- The health probe alone has no actor.
  unfoldable pub serve_route :
      Route → Query → String → String → Request → Action (Site D Keys.State) Response
  unfolding handler_of actor_middleware
  serve_route route query role_header id_header request =
      if is_unprotected route
      then handler_of route query request
      else actor_middleware L.error_json (handler_of route query) role_header id_header request
