-- ===== src/Mongo/Create.antt =====
-- store/mongo/store.go: onboardActors and CreatePayment.
pub mod Sound
pub mod Stored
pub mod Onboard
pub mod Kept
use Prim.Native.String.{◌++◌}
use gripe.Common.{
  ℕ, String, Bool, true, false, Option, none, some, List, [], ◌∷◌, ◌==◌, not, eqb, ◌||◌, is_blank,
  if◌then◌else◌,
}
use gripe.Int.{ℤ, pos, leb_ℤ, eqb_ℤ}
use gripe.Int.Word.{rem}
use gripe.Domain.{
  Time, Payment, PaymentMethod, PaymentStatus, authorized, captured, pending, declined, card,
  direct_debit, bank_transfer, apple_pay, google_pay, CreatePaymentInput, currency_valid,
  method_valid,
}
use gripe.Exec.{
  Action, Command, exec, now, new_id, gets, modify, pure, raise, invalid_state, ◌>>=◌, ◌>>◌,
}
use gripe.Mongo.{Server, Store, PaymentDoc, MerchantDoc, CustomerDoc, to_domain, contains}

abbrev pub decline_tail : ℤ
decline_tail = pos 13

-- The status that a method and an amount begin with.
unfoldable pub initial_status : PaymentMethod → ℤ → PaymentStatus
initial_status direct_debit amount = authorized
initial_status bank_transfer amount = pending
initial_status (PaymentMethod.other s) amount = captured
initial_status _ amount = if eqb_ℤ (rem amount 100) decline_tail then declined else captured

-- The guards of CreatePayment, in their order; each refuses with ErrInvalidState.
unfoldable pub refuses : CreatePaymentInput → Bool
refuses input =
    not (currency_valid input.currency)
    || not (method_valid input.method)
    || leb_ℤ input.amount_minor (pos 0)
    || is_blank input.merchant_id
    || is_blank input.customer_id

abbrev pub new_payment : String → Time → CreatePaymentInput → PaymentDoc
new_payment id t input = record {
  id = id;
  merchant_id = input.merchant_id;
  customer_id = input.customer_id;
  amount_minor = input.amount_minor;
  currency = input.currency;
  method = input.method;
  status = initial_status input.method input.amount_minor;
  refunded_minor = pos 0;
  network_fee_minor = pos 0;
  created_at = t;
  updated_at = t;
  refunds = [];
}

module _ (S : Server) where
  -- `$setOnInsert` with upsert: a document that is there stays as it is.
  abbrev upsert_merchant : String → Time → Command (Store S) Unit
  upsert_merchant id t st = some (
    tt,
    record st {
      merchants =
          S.merchants.upsert
            (record { id = id; created_at = some t; balances = []; updated_at = none }) (λ m. m)
            st.merchants;
    },
  )

  abbrev upsert_customer : String → Time → Command (Store S) Unit
  upsert_customer id t st = some (
    tt,
    record st {
      customers = S.customers.upsert (record { id = id; created_at = t }) (λ c. c) st.customers;
    },
  )

  abbrev mark_seen : String → Store S → Store S
  mark_seen key st = record st { seen = key ∷ st.seen }

  unfoldable pub onboard_actors : String → String → Action (Store S) Unit
  onboard_actors merchant_id customer_id = do
    t ← now
    merchant_seen ← gets (λ st. contains ("m:" ++ merchant_id) st.seen)
    if merchant_seen
        then pure tt
        else (do exec (upsert_merchant merchant_id t); modify (mark_seen ("m:" ++ merchant_id)))
    customer_seen ← gets (λ st. contains ("c:" ++ customer_id) st.seen)
    if customer_seen
        then pure tt
        else (do exec (upsert_customer customer_id t); modify (mark_seen ("c:" ++ customer_id)))

  -- InsertOne; a taken `_id` is an error of the server.
  abbrev pub insert_payment : PaymentDoc → Command (Store S) Unit
  insert_payment d st = elim (S.payments.insert d st.payments) [
    | none ↦ none
    | some s ↦ some (tt, record st { payments = s })
  ]

  -- From the clock on.
  unfoldable pub store_payment : CreatePaymentInput → Action (Store S) Payment
  store_payment input = do
    t ← now
    id ← new_id "pay"
    exec (insert_payment (new_payment id t input))
    pure (to_domain (new_payment id t input))

  -- The idempotency key is an argument that the method does not use.
  unfoldable pub create_payment : CreatePaymentInput → String → Action (Store S) Payment
  unfolding onboard_actors store_payment
  create_payment input key =
      if refuses input
      then raise invalid_state
      else (do onboard_actors input.merchant_id input.customer_id; store_payment input)
