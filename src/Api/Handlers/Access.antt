-- ===== src/Api/Handlers/Access.antt =====
-- internal/api/payments.go and subscriptions.go: what a caller can do to what belongs to another.
use gripe.Common.{String, ◌≡◌, ◌≢◌, refl, true, false, some, ◌==◌, ◌⊎◌, inl, inr, arith}
use gripe.Domain.{Actor}
use gripe.Exec.{World, Result, ok, err, StoreError, forbidden, driver, Outcome, answered, ◌>>=◌}
use gripe.Mongo.{Server, Store, PaymentDoc, SubscriptionDoc}
use gripe.Mongo.Transitions.{get_payment, may_see}
use gripe.Mongo.Subscriptions.{cancel_subscription, set_cancelled}
use gripe.Api.{Request, Response}
use gripe.Api.Handlers.{
  Backend, Libraries, is_merchant, error_status, refund_payment_handler, capture_payment_handler,
  cancel_subscription_handler,
}
use gripe.Api.Handlers.Backends.{mongo_backend}

-- The database is as it was, and the response is 403 where the first command is answered, and 500
-- where it is not.
abbrev pub IsDenied : {D : Type 0} → World D → Result Response × World D → Type 0
IsDenied w (r, w') =
    (w'.db ≡ w.db)
    × (response : Response) × (r ≡ ok response)
    × (((w.outcomes 0 ≡ answered) × (response.status ≡ 403))
        ⊎ ((w.outcomes 0 ≢ answered) × (response.status ≡ 500)))

pub Outcome-cases : (o : Outcome) → (o ≡ answered) ⊎ (o ≢ answered)
Outcome-cases answered = inl refl
Outcome-cases Outcome.refused = inr (ground arith)
Outcome-cases Outcome.lost = inr (ground arith)

module _ {D : Type 0} (L : Libraries D) (s : Backend D) where
  -- The response to an error of the store.
  abbrev failed : StoreError → Response
  failed e = record {
    status = error_status e;
    body = L.error_json (L.error_text e);
    replayed = false;
  }

  capture_payment-denied :
      (request : Request) (actor : Actor) (e : StoreError) (w w' : World D)
      → request.actor ≡ some actor
      → is_merchant actor.role ≡ true
      → s.get_payment request.id actor w ≡ (err e, w')
      → capture_payment_handler L (some s) request w ≡ (ok (failed e), w')
  unfolding capture_payment_handler ◌>>=◌
  capture_payment-denied request actor e w w' by role denied = ground arith

  refund_payment-denied :
      (request : Request) (actor : Actor) (e : StoreError) (w w' : World D)
      → request.actor ≡ some actor
      → is_merchant actor.role ≡ true
      → s.get_payment request.id actor w ≡ (err e, w')
      → refund_payment_handler L (some s) request w ≡ (ok (failed e), w')
  unfolding refund_payment_handler ◌>>=◌
  refund_payment-denied request actor e w w' by role denied = ground arith

module _ (S : Server) where
  get_payment-foreign :
      (id : String) (actor : Actor) (d : PaymentDoc) (w : World (Store S))
      → is_merchant actor.role ≡ true
      → S.payments.find id w.db.payments ≡ some d
      → (d.merchant_id == actor.id) ≡ false
      → (e : StoreError) × (((w.outcomes 0 ≡ answered) × (e ≡ forbidden))
          ⊎ ((w.outcomes 0 ≢ answered) × (e ≡ driver)))
        × (get_payment S id actor w ≡ (err e, (get_payment S id actor w).1))
        × ((get_payment S id actor w).1.db ≡ w.db)
  unfolding get_payment may_see ◌>>=◌
  get_payment-foreign id actor d w role found foreign = elim (Outcome-cases (w.outcomes 0)) [
    | inl a ↦ (forbidden, inl (a, refl), ground arith, ground arith)
    | inr b ↦ (driver, inr (b, refl), ground arith, ground arith)
  ]

  failed-IsDenied :
      (L : Libraries (Store S)) (e : StoreError) (w w' : World (Store S))
      → ((w.outcomes 0 ≡ answered) × (e ≡ forbidden)) ⊎ ((w.outcomes 0 ≢ answered) × (e ≡ driver))
      → w'.db ≡ w.db
      → IsDenied w (ok (failed L (mongo_backend S) e), w')
  failed-IsDenied L e w w' (inl (a, f)) same = (same, _, refl, inl (a, rw f refl))
  failed-IsDenied L e w w' (inr (b, f)) same = (same, _, refl, inr (b, rw f refl))

  -- A merchant that asks for the capture or for a refund of a payment of another merchant is denied:
  -- with 403 where the lookup of the payment is answered, with 500 where it is not; the database does
  -- not change, whatever the body of the request is.
  pub foreign_merchant-IsDenied :
      (L : Libraries (Store S)) (request : Request) (actor : Actor) (d : PaymentDoc)
      (w : World (Store S))
      → request.actor ≡ some actor
      → is_merchant actor.role ≡ true
      → S.payments.find request.id w.db.payments ≡ some d
      → (d.merchant_id == actor.id) ≡ false
      → IsDenied w (capture_payment_handler L (some (mongo_backend S)) request w)
        × IsDenied w (refund_payment_handler L (some (mongo_backend S)) request w)
  foreign_merchant-IsDenied L request actor d w by role found foreign =
      let (e, which, got, same) = get_payment-foreign request.id actor d w role found foreign in
      let w' = (get_payment S request.id actor w).1 in
      let denied = failed-IsDenied L e w w' which same in
      (
        rw (capture_payment-denied L (mongo_backend S) request actor e w w' by role got) denied,
        rw (refund_payment-denied L (mongo_backend S) request actor e w w' by role got) denied,
      )

  -- A merchant that is not the cancelled subscription's is answered 403, and the subscription is
  -- cancelled all the same, where the database answers the command.
  pub cancel_subscription_of_another :
      (L : Libraries (Store S)) (request : Request) (actor : Actor) (d : SubscriptionDoc)
      (w : World (Store S))
      → request.actor ≡ some actor
      → is_merchant actor.role ≡ true
      → S.subscriptions.find request.id w.db.subscriptions ≡ some d
      → (d.merchant_id == actor.id) ≡ false
      → w.outcomes 0 ≡ answered
      → let (r, w') = cancel_subscription_handler L (some (mongo_backend S)) request w in
        (r
          ≡ ok (record {
            status = 403;
            body = L.error_json "not your subscription";
            replayed = false;
          }))
        × (S.subscriptions.find request.id w'.db.subscriptions
            ≡ some (set_cancelled (w.readings 0) d))
  unfolding cancel_subscription_handler cancel_subscription ◌>>=◌
  cancel_subscription_of_another L request actor d w by role found foreign answer =
      let updated =
        S.subscriptions.update_lem request.id (λ e. true) (set_cancelled (w.readings 0))
          w.db.subscriptions in
      let written =
        S.subscriptions.find-write (set_cancelled (w.readings 0) d) request.id w.db.subscriptions in
      let key = S.subscriptions.find-key request.id d w.db.subscriptions found in ground arith
