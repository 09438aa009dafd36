-- ===== src/Postgres/Create.antt =====
-- store/postgres/store.go: CreatePayment, upsertParties and markSeen.
pub mod Onboard
pub mod Kept
use Prim.Native.String.{◌++◌}
use gripe.Common.{
  String, Bool, false, none, some, List, [], ◌∷◌, ◌==◌, ◌&&◌, ◌||◌, not, is_blank, if◌then◌else◌,
}
use gripe.Int.{ℤ, pos, leb_ℤ, eqb_ℤ}
use gripe.Int.Word.{rem}
use gripe.Domain.{
  Time, Payment, PaymentMethod, PaymentStatus, authorized, captured, pending, declined,
  direct_debit, bank_transfer, CreatePaymentInput, currency_valid, method_valid,
}
use gripe.Exec.{Action, Command, now, new_id, gets, modify, pure, raise, invalid_state, ◌>>=◌, ◌>>◌}
use gripe.Postgres.{Server, Store, Tables, PaymentRow, to_payment, exists, begin, tx_exec, commit}

abbrev pub decline_tail : ℤ
decline_tail = pos 13

unfoldable pub initial_status : PaymentMethod → ℤ → PaymentStatus
initial_status direct_debit amount = authorized
initial_status bank_transfer amount = pending
initial_status (PaymentMethod.other s) amount = captured
initial_status _ amount = if eqb_ℤ (rem amount 100) decline_tail then declined else captured

unfoldable pub refuses : CreatePaymentInput → Bool
refuses input =
    not (currency_valid input.currency)
    || not (method_valid input.method)
    || leb_ℤ input.amount_minor (pos 0)
    || is_blank input.merchant_id
    || is_blank input.customer_id

abbrev pub new_payment : String → Time → CreatePaymentInput → PaymentRow
new_payment id t input = record {
  id = id;
  merchant_id = input.merchant_id;
  customer_id = input.customer_id;
  amount_minor = input.amount_minor;
  currency = input.currency;
  method = input.method;
  status = initial_status input.method input.amount_minor;
  refunded_minor = pos 0;
  network_fee_minor = none;
  created_at = t;
  updated_at = t;
}

-- `sync.Map.Load`
unfoldable pub contains : String → List String → Bool
contains key [] = false
contains key (k ∷ ks) = k == key || contains key ks

module _ (S : Server) where
  -- INSERT ... ON CONFLICT (id) DO NOTHING
  abbrev pub upsert_merchant : String → Time → Command (Tables S) Unit
  upsert_merchant id t tables = some (
    tt,
    record tables {
      merchants = S.merchants.upsert (record { id = id; created_at = t }) (λ r. r) tables.merchants;
    },
  )

  abbrev pub upsert_customer : String → Time → Command (Tables S) Unit
  upsert_customer id t tables = some (
    tt,
    record tables {
      customers = S.customers.upsert (record { id = id; created_at = t }) (λ r. r) tables.customers;
    },
  )

  -- The statements read the server's clock, here with the process's.
  unfoldable pub upsert_parties : String → String → Tables S → Action (Store S) (Unit × Tables S)
  upsert_parties merchant_id customer_id tx = do
    merchant_seen ← gets (λ st. contains ("m:" ++ merchant_id) st.seen)
    first ←
        if merchant_seen
        then pure (tt, tx)
        else (do t ← now; tx_exec S (upsert_merchant merchant_id t) tx)
    customer_seen ← gets (λ st. contains ("c:" ++ customer_id) st.seen)
    if customer_seen
        then pure first
        else (do t ← now; tx_exec S (upsert_customer customer_id t) first.1)

  abbrev pub mark_seen : String → String → Store S → Store S
  mark_seen merchant_id customer_id st = record st {
    seen = ("c:" ++ customer_id) ∷ ("m:" ++ merchant_id) ∷ st.seen;
  }

  -- INSERT INTO payments; the row refers to a merchant and a customer.
  abbrev pub insert_payment : PaymentRow → Command (Tables S) Unit
  insert_payment r t =
      if exists (S.merchants.find r.merchant_id t.merchants)
        && exists (S.customers.find r.customer_id t.customers)
      then (elim (S.payments.insert r t.payments) [
        | none ↦ none
        | some s ↦ some (tt, record t { payments = s })
      ])
      else none

  -- The idempotency key is an argument that the method does not use.
  unfoldable pub create_payment : CreatePaymentInput → String → Action (Store S) Payment
  unfolding upsert_parties contains begin tx_exec commit
  create_payment input key = if refuses input then raise invalid_state else (do
    t ← now
    id ← new_id "pay"
    tx ← begin S
    onboarded ← upsert_parties input.merchant_id input.customer_id tx
    inserted ← tx_exec S (insert_payment (new_payment id t input)) onboarded.1
    commit S inserted.1
    modify (mark_seen input.merchant_id input.customer_id)
    pure (to_payment (new_payment id t input)))
