-- ===== src/Api/Handlers.antt =====
-- internal/api/payments.go, settlement.go and subscriptions.go: the handlers that write, and
-- getPayment. A handler calls the store through its interface; JSON, RFC 3339, the texts of errors
-- and the event queue are the libraries'. The detail that follows "bad json" and "bad start_at" is left
-- out.
pub mod Backends
pub mod Access
pub mod Tests
use gripe.Common.{
  ℕ, String, Bool, true, false, Option, none, some, ◌==◌, not, ◌&&◌, ◌||◌, is_blank, if◌then◌else◌,
}
use gripe.Int.{ℤ}
use gripe.Domain.{
  Time, Payment, Refund, Subscription, Actor, ActorRole, admin, merchant, customer, currency_of,
  method_of, cadence_of, currency_valid, status_eq, declined, CreatePaymentInput,
  CreateSubscriptionInput,
}
use gripe.Exec.{
  Action, Result, ok, err, StoreError, not_found, forbidden, over_refund, currency_mismatch,
  invalid_state, attempt, pure, if_found, ◌>>=◌, ◌>>◌,
}
use gripe.Api.{Request, Response}

-- The methods of `store.Store` that these handlers call.
pub record Backend (D : Type 0) : Type 0 where
  pub create_payment : CreatePaymentInput → String → Action D Payment
  pub get_payment : String → Actor → Action D Payment
  pub capture_payment : String → Action D Payment
  pub refund_payment : String → ℤ → String → Action D Refund
  pub settle_payment : String → Action D Payment
  pub settle_refund : String → Action D Refund
  pub create_subscription : CreateSubscriptionInput → Action D Subscription
  pub cancel_subscription : String → Action D Subscription

pub record CreatePaymentReq : Type 0 where
  pub merchant_id : String
  pub customer_id : String
  pub amount_minor : ℤ
  pub currency : String
  pub method : String

pub record CreateSubReq : Type 0 where
  pub merchant_id : String
  pub customer_id : String
  pub amount_minor : ℤ
  pub currency : String
  pub method : String
  pub cadence : String
  pub start_at : String

-- encoding/json, time.Parse, the errors' texts and PublishPaymentCreated.
pub record Libraries (D : Type 0) : Type 0 where
  pub payment_json : Payment → String
  pub refund_json : Refund → String
  pub subscription_json : Subscription → String
  pub error_json : String → String
  pub error_text : StoreError → String
  pub decode_payment : String → Option CreatePaymentReq
  pub decode_refund : String → Option ℤ
  pub decode_subscription : String → Option CreateSubReq
  pub parse_rfc3339 : String → Option Time
  pub publish_payment_created : Payment → Action D Unit

abbrev pub is_admin : ActorRole → Bool
is_admin admin = true
is_admin _ = false

abbrev pub is_merchant : ActorRole → Bool
is_merchant merchant = true
is_merchant _ = false

abbrev pub is_customer : ActorRole → Bool
is_customer customer = true
is_customer _ = false

-- The switch of writeStoreError.
abbrev pub error_status : StoreError → ℕ
error_status not_found = 404
error_status forbidden = 403
error_status over_refund = 422
error_status currency_mismatch = 422
error_status invalid_state = 422
error_status _ = 500

abbrev pub write_json : {D : Type 0} → ℕ → String → Action D Response
write_json status body = pure (record { status = status; body = body; replayed = false })

abbrev pub decoded : {A : Type 0} → (String → Option A) → Option String → Option A
decoded decode none = none
decoded decode (some body) = decode body

-- The merchant that a request is about: a merchant's own id, where the request names no other.
abbrev pub names_other : Actor → String → Bool
names_other actor merchant_id =
    is_merchant actor.role && not (merchant_id == "") && not (merchant_id == actor.id)

abbrev pub merchant_of : Actor → String → String
merchant_of actor merchant_id = if is_merchant actor.role then actor.id else merchant_id

module _ {D : Type 0} (L : Libraries D) where
  abbrev pub refuse : ℕ → String → Action D Response
  refuse status message = write_json status (L.error_json message)

  abbrev pub write_store_error : StoreError → Action D Response
  write_store_error e = refuse (error_status e) (L.error_text e)

  abbrev pub reply : {A : Type 0} → ℕ → (A → String) → Result A → Action D Response
  reply status encode (ok a) = write_json status (encode a)
  reply status encode (err e) = write_store_error e

  -- The first lines of each handler: no store, or no actor.
  abbrev pub with_actor :
      {B : Type 0} → Option B → Request → (B → Actor → Action D Response) → Action D Response
  with_actor none request handler = refuse 503 "store not configured"
  with_actor (some s) request handler =
      if_found request.actor (refuse 500 "no actor") λ actor. handler s actor

  -- The pre-check that a merchant owns the payment.
  abbrev pub after_check : Action D Response → Result Payment → Action D Response
  after_check rest (ok p) = rest
  after_check rest (err e) = write_store_error e

  abbrev pub if_owned : Backend D → Actor → String → Action D Response → Action D Response
  if_owned s actor id rest =
      if is_merchant actor.role
      then (do owned ← attempt (s.get_payment id actor); after_check rest owned)
      else rest

  -- The event is published for a payment that is not declined; a failure is only logged.
  abbrev created_reply : Result Payment → Action D Response
  created_reply (ok p) =
      if status_eq p.status declined
      then write_json 201 (L.payment_json p)
      else (do published ← attempt (L.publish_payment_created p); write_json 201 (L.payment_json p))
  created_reply (err e) = write_store_error e

  unfoldable pub create_payment_handler : Option (Backend D) → Request → Action D Response
  unfolding attempt
  create_payment_handler store request = with_actor store request λ s actor.
      if not (is_merchant actor.role) && not (is_customer actor.role)
      then refuse 403 "admin cannot create payments"
      else if_found (decoded L.decode_payment request.body) (refuse 400 "bad json") λ req.
        if names_other actor req.merchant_id
        then refuse 403 "merchant_id must match X-Actor-Id for merchant callers"
        else if is_blank (merchant_of actor req.merchant_id)
        then refuse 400 "merchant_id required"
        else if not (currency_valid (currency_of req.currency))
        then refuse 400 "currency must be one of USD, GBP, EUR"
        else (do
          created ← attempt (
              s.create_payment
                (record {
                  merchant_id = merchant_of actor req.merchant_id;
                  customer_id = req.customer_id;
                  amount_minor = req.amount_minor;
                  currency = currency_of req.currency;
                  method = method_of req.method;
                })
                request.idempotency_key)
          created_reply created)

  unfoldable pub get_payment_handler : Option (Backend D) → Request → Action D Response
  unfolding attempt
  get_payment_handler store request =
      with_actor store request λ s actor. do
        found ← attempt (s.get_payment request.id actor)
        reply 200 L.payment_json found

  unfoldable pub refund_payment_handler : Option (Backend D) → Request → Action D Response
  unfolding attempt
  refund_payment_handler store request = with_actor store request λ s actor.
      if is_customer actor.role
      then refuse 403 "customers cannot refund"
      else if_owned s actor request.id (
          if_found (decoded L.decode_refund request.body) (refuse 400 "bad json") λ amount. do
            refunded ← attempt (s.refund_payment request.id amount request.idempotency_key)
            reply 201 L.refund_json refunded)

  unfoldable pub capture_payment_handler : Option (Backend D) → Request → Action D Response
  unfolding attempt
  capture_payment_handler store request = with_actor store request λ s actor.
      if is_customer actor.role
      then refuse 403 "customers cannot capture"
      else if_owned s actor request.id
          (do captured ← attempt (s.capture_payment request.id); reply 200 L.payment_json captured)

  abbrev pub if_admin :
      {B : Type 0} → Option B → Request → (B → Action D Response) → Action D Response
  if_admin store request handler =
      with_actor store request
        λ s actor. if not (is_admin actor.role) then refuse 403 "admin only" else handler s

  unfoldable pub settle_payment_handler : Option (Backend D) → Request → Action D Response
  unfolding attempt
  settle_payment_handler store request =
      if_admin store request
        λ s. do settled ← attempt (s.settle_payment request.id); reply 200 L.payment_json settled

  unfoldable pub settle_refund_handler : Option (Backend D) → Request → Action D Response
  unfolding attempt
  settle_refund_handler store request =
      if_admin store request
        λ s. do settled ← attempt (s.settle_refund request.id); reply 200 L.refund_json settled

  -- `none` where the text is there and is no RFC 3339 time; the empty text is Go's zero time.
  abbrev parse_start : String → Option Time
  parse_start text = if text == "" then some 0 else L.parse_rfc3339 text

  unfoldable pub create_subscription_handler : Option (Backend D) → Request → Action D Response
  unfolding attempt
  create_subscription_handler store request = with_actor store request λ s actor.
      if is_customer actor.role
      then refuse 403 "customers cannot create subscriptions"
      else if_found (decoded L.decode_subscription request.body) (refuse 400 "bad json") λ req.
        if names_other actor req.merchant_id
        then refuse 403 "merchant_id must match X-Actor-Id for merchant callers"
        else if is_blank (merchant_of actor req.merchant_id)
        then refuse 400 "merchant_id required"
        else if not (currency_valid (currency_of req.currency))
        then refuse 400 "currency must be one of USD, GBP, EUR"
        else if_found (parse_start req.start_at) (refuse 400 "bad start_at") λ start. do
          created ← attempt (
              s.create_subscription (record {
                merchant_id = merchant_of actor req.merchant_id;
                customer_id = req.customer_id;
                amount_minor = req.amount_minor;
                currency = currency_of req.currency;
                method = method_of req.method;
                cadence = cadence_of req.cadence;
                start_at = start;
              }))
          reply 201 L.subscription_json created

  -- The scoping of the answer, after the cancellation.
  abbrev scoped : Actor → Subscription → Bool
  scoped actor sub = elim actor.role [
    | admin ↦ true
    | merchant ↦ sub.merchant_id == actor.id
    | customer ↦ sub.customer_id == actor.id
    | ActorRole.other s ↦ true
  ]

  abbrev cancelled_reply : Actor → Result Subscription → Action D Response
  cancelled_reply actor (ok sub) =
      if scoped actor sub
      then write_json 200 (L.subscription_json sub)
      else refuse 403 "not your subscription"
  cancelled_reply actor (err e) = write_store_error e

  unfoldable pub cancel_subscription_handler : Option (Backend D) → Request → Action D Response
  unfolding attempt
  cancel_subscription_handler store request = with_actor store request λ s actor. do
    cancelled ← attempt (s.cancel_subscription request.id)
    cancelled_reply actor cancelled
