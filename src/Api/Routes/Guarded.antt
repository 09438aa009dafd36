-- ===== src/Api/Routes/Guarded.antt =====
-- What the routes let through.
use gripe.Common.{
  String, ◌≡◌, refl, Bool, true, false, Option, none, some, ◌==◌, ◌||◌, ap, ◌∙◌, inl, inr,
  Bool-cases, Option-cases, arith, trim_space,
}
use gripe.Storage.{Collection}
use gripe.Domain.{Actor, ActorRole}
use gripe.Exec.{World, Action, Result, ok, StoreError, pure, ◌>>=◌}
use gripe.Api.{Request, Response}
use gripe.Api.Actors.{actor_middleware, role_of, with_role}
use gripe.Api.Idempotency.{IdempotencyRecord, Site}
use gripe.Api.Handlers.{Libraries, is_admin, settle_payment_handler, settle_refund_handler}
use gripe.Api.Reads.{
  Formats, Query, admin_volume_report_handler, admin_balance_report_handler,
  admin_revenue_report_handler,
}
use gripe.Api.Routes.{Route, Service, is_unprotected, handler_of, serve_route}

-- The routes of platform operations.
abbrev pub is_admin_only : Route → Bool
is_admin_only Route.volume_report = true
is_admin_only Route.balance_report = true
is_admin_only Route.revenue_report = true
is_admin_only Route.settle_payment = true
is_admin_only Route.settle_refund = true
is_admin_only _ = false

abbrev pub is_unknown : Option ActorRole → Bool
is_unknown none = true
is_unknown (some r) = false

module _ {D : Type 0} (error_json : String → String) (next : Request → Action D Response)
    (role_header id_header : String) (request : Request) (w : World D) where
  abbrev behind : Result Response × World D
  behind = actor_middleware error_json next role_header id_header request w

  middleware-unnamed :
      (trim_space role_header == ""
          || trim_space id_header == ""
          || is_unknown (role_of (trim_space role_header)))
        ≡ true
      → (response : Response) × (behind ≡ (ok response, w)) × (response.status ≡ 400)
  unfolding actor_middleware pure
  middleware-unnamed unnamed =
      elim (Bool-cases (trim_space role_header == "" || trim_space id_header == "")) [
        | inl empty ↦ rw empty (_, refl, refl)
        | inr full ↦ elim (Option-cases (role_of (trim_space role_header))) [
          | inl unknown ↦ rw (full, unknown) (_, refl, refl)
          | inr (role, known) ↦ absurd (ground arith)
        ]
      ]

  middleware-named :
      (role : ActorRole)
      → (trim_space role_header == "") ≡ false
      → (trim_space id_header == "") ≡ false
      → role_of (trim_space role_header) ≡ some role
      → behind
        ≡ next
            (record request { actor = some (record { role = role; id = trim_space id_header }) })
            w
  unfolding actor_middleware
  middleware-named role has_role has_id known =
      rw (has_role, has_id)
        (ap (λ o. with_role error_json next (trim_space id_header) request o w) known)

module _ {D : Type 0} (Keys : Collection ◌==◌ (λ (r : IdempotencyRecord). r.key)) (L : Libraries D)
    (F : Formats) (sha256_hex : String → String) (health_json : Option StoreError → String) where
  -- On every route but the health probe, a request whose headers name no role or no id, or a role that
  -- is not one of the three, is answered 400 and nothing else happens: no handler runs and no key of
  -- an idempotent write is looked up.
  pub serve_route-unnamed :
      (store : Option (Service D)) (route : Route) (query : Query) (role_header id_header : String)
      (request : Request) (w : World (Site D Keys.State))
      → is_unprotected route ≡ false
      → (trim_space role_header == ""
          || trim_space id_header == ""
          || is_unknown (role_of (trim_space role_header)))
        ≡ true
      → (response : Response) × (serve_route Keys L F sha256_hex health_json store route query
            role_header id_header request w
          ≡ (ok response, w))
        × (response.status ≡ 400)
  unfolding serve_route
  serve_route-unnamed store route query role_header id_header request w guarded unnamed =
      rw guarded (
        middleware-unnamed L.error_json
          (handler_of Keys L F sha256_hex health_json store route query) role_header id_header
          request w unnamed)

  handler-admin_only :
      (s : Service D) (route : Route) (query : Query) (request : Request) (actor : Actor)
      (w : World (Site D Keys.State))
      → is_admin_only route ≡ true
      → is_admin actor.role ≡ false
      → handler_of Keys L F sha256_hex health_json
          (some s)
          route
          query
          (record request { actor = some actor })
          w
        ≡ (ok (record { status = 403; body = L.error_json "admin only"; replayed = false }), w)
  unfolding handler_of settle_payment_handler settle_refund_handler admin_volume_report_handler
      admin_balance_report_handler admin_revenue_report_handler ◌>>=◌
  handler-admin_only s Route.volume_report query request actor w a denied = rw denied refl
  handler-admin_only s Route.balance_report query request actor w a denied = rw denied refl
  handler-admin_only s Route.revenue_report query request actor w a denied = rw denied refl
  handler-admin_only s Route.settle_payment query request actor w a denied = rw denied refl
  handler-admin_only s Route.settle_refund query request actor w a denied = rw denied refl
  handler-admin_only s Route.healthz query request actor w a denied = absurd (ground arith)
  handler-admin_only s Route.list_payments query request actor w a denied = absurd (ground arith)
  handler-admin_only s Route.get_payment query request actor w a denied = absurd (ground arith)
  handler-admin_only s Route.balances query request actor w a denied = absurd (ground arith)
  handler-admin_only s Route.create_payment query request actor w a denied = absurd (ground arith)
  handler-admin_only s Route.capture_payment query request actor w a denied = absurd (ground arith)
  handler-admin_only s Route.refund_payment query request actor w a denied = absurd (ground arith)
  handler-admin_only s Route.create_subscription query request actor w a denied =
      absurd (ground arith)
  handler-admin_only s Route.cancel_subscription query request actor w a denied =
      absurd (ground arith)

  admin_only-protected : (route : Route) → is_admin_only route ≡ true → is_unprotected route ≡ false
  admin_only-protected route h = ground arith

  -- The reports, the settlement of payments and that of refunds are for admins: with any other known
  -- role the answer is 403, and the store and the records are as they were.
  pub serve_route-admin_only :
      (s : Service D) (route : Route) (query : Query) (role_header id_header : String)
      (role : ActorRole) (request : Request) (w : World (Site D Keys.State))
      → is_admin_only route ≡ true
      → (trim_space role_header == "") ≡ false
      → (trim_space id_header == "") ≡ false
      → role_of (trim_space role_header) ≡ some role
      → is_admin role ≡ false
      → (response : Response) × (serve_route Keys L F sha256_hex health_json
            (some s)
            route
            query
            role_header
            id_header
            request
            w
          ≡ (ok response, w))
        × (response.status ≡ 403)
  unfolding serve_route
  serve_route-admin_only s route query role_header id_header role request w admin_only has_role
        has_id known denied =
      rw (admin_only-protected route admin_only) (
        record { status = 403; body = L.error_json "admin only"; replayed = false },
        middleware-named L.error_json
              (handler_of Keys L F sha256_hex health_json (some s) route query) role_header
              id_header request w role has_role has_id known
            ∙ handler-admin_only s route query request
                (record { role = role; id = trim_space id_header }) w admin_only denied,
        refl,
      )
