-- ===== src/Mongo.antt =====
-- store/mongo/store.go: the documents, the collections, and what the methods share.
pub mod Create
pub mod Idempotency
pub mod Transitions
pub mod Refunds
pub mod Sound
pub mod History
pub mod Calls
pub mod Subscriptions
pub mod Listing
pub mod Reports
pub mod Tests
pub mod View
use gripe.Common.{
  ℕ, String, Bool, true, false, Option, none, some, List, [], ◌∷◌, ◌==◌, ◌&&◌, ◌||◌, if◌then◌else◌,
}
use gripe.Int.{ℤ, pos, ◌+ℤ◌}
use gripe.Domain.{
  Time, Currency, PaymentMethod, PaymentStatus, Payment, RefundStatus, Refund, SubscriptionCadence,
  SubscriptionStatus, currency_eq,
}
use gripe.Storage.{Collection}
use gripe.Exec.{Action, Command, exec, now, ok, ◌>>=◌, ◌>>◌}

pub record SubscriptionDoc : Type 0 where
  pub id : String
  pub merchant_id : String
  pub customer_id : String
  pub amount_minor : ℤ
  pub currency : Currency
  pub method : PaymentMethod
  pub cadence : SubscriptionCadence
  pub status : SubscriptionStatus
  pub next_charge_at : Time
  pub next_cycle_idx : ℤ
  pub created_at : Time
  pub updated_at : Option Time

-- One currency's ledger inside `merchants.balances`.
pub record CurrencyBalance : Type 0 where
  pub balance_minor : ℤ
  pub fees_minor : ℤ

abbrev pub Balances : Type 0
Balances = List (Currency × CurrencyBalance)

-- `updated_at` is absent until a balance first moves, `created_at` where that comes first.
pub record MerchantDoc : Type 0 where
  pub id : String
  pub created_at : Option Time
  pub balances : Balances
  pub updated_at : Option Time

pub record CustomerDoc : Type 0 where
  pub id : String
  pub created_at : Time

pub record RefundElem : Type 0 where
  pub id : String
  pub amount_minor : ℤ
  pub status : RefundStatus
  pub created_at : Time

-- The fee is 0 where the field is absent, and `refunds` is empty where the array is absent.
pub record PaymentDoc : Type 0 where
  pub id : String
  pub merchant_id : String
  pub customer_id : String
  pub amount_minor : ℤ
  pub currency : Currency
  pub method : PaymentMethod
  pub status : PaymentStatus
  pub refunded_minor : ℤ
  pub network_fee_minor : ℤ
  pub created_at : Time
  pub updated_at : Time
  pub refunds : List RefundElem

abbrev pub refund_to_domain : RefundElem → PaymentDoc → Refund
refund_to_domain r parent = record {
  id = r.id;
  payment_id = parent.id;
  merchant_id = parent.merchant_id;
  amount_minor = r.amount_minor;
  currency = parent.currency;
  status = r.status;
  created_at = r.created_at;
}

abbrev pub to_domain : PaymentDoc → Payment
to_domain p = record {
  id = p.id;
  merchant_id = p.merchant_id;
  customer_id = p.customer_id;
  amount_minor = p.amount_minor;
  currency = p.currency;
  method = p.method;
  status = p.status;
  refunded_minor = p.refunded_minor;
  network_fee_minor = p.network_fee_minor;
  created_at = p.created_at;
  updated_at = p.updated_at;
}

pub record Server : Type 1 where
  pub payments : Collection ◌==◌ (λ (d : PaymentDoc). d.id)
  pub merchants : Collection ◌==◌ (λ (d : MerchantDoc). d.id)
  pub customers : Collection ◌==◌ (λ (d : CustomerDoc). d.id)
  pub subscriptions : Collection ◌==◌ (λ (d : SubscriptionDoc). d.id)

-- The collections, and the process's own cache of the actors that it has onboarded.
pub record Store (S : Server) : Type 0 where
  pub payments : S.payments.State
  pub merchants : S.merchants.State
  pub customers : S.customers.State
  pub subscriptions : S.subscriptions.State
  pub seen : List String

-- `sync.Map.Load`
unfoldable pub contains : String → List String → Bool
contains key [] = false
contains key (k ∷ ks) = k == key || contains key ks

-- `$inc` on the dotted paths of one currency; a missing ledger starts at zero.
unfoldable pub increment : Currency → ℤ → ℤ → Balances → Balances
increment c balance_delta fees_delta [] =
    (c, record { balance_minor = balance_delta; fees_minor = fees_delta }) ∷ []
increment c balance_delta fees_delta ((k, b) ∷ rest) =
    if currency_eq k c
    then (
      k,
      record {
        balance_minor = b.balance_minor +ℤ balance_delta;
        fees_minor = b.fees_minor +ℤ fees_delta;
      },
    )
      ∷ rest
    else (k, b) ∷ increment c balance_delta fees_delta rest

-- The ledger entry that UpdateOne writes: into a new document, or into the one that is there.
abbrev pub new_merchant : String → Currency → ℤ → ℤ → Time → MerchantDoc
new_merchant merchant currency balance_delta fees_delta t = record {
  id = merchant;
  created_at = none;
  balances = increment currency balance_delta fees_delta [];
  updated_at = some t;
}

abbrev pub add_to_balances : Currency → ℤ → ℤ → Time → MerchantDoc → MerchantDoc
add_to_balances currency balance_delta fees_delta t m = record m {
  balances = increment currency balance_delta fees_delta m.balances;
  updated_at = some t;
}

module _ (S : Server) where
  -- The commands, as the methods send them.
  abbrev pub find_payment : String → Command (Store S) (Option PaymentDoc)
  find_payment id st = some (S.payments.find id st.payments, st)

  abbrev pub with_payments :
      {A : Type 0} → Store S → Option (A × S.payments.State) → Option A × Store S
  with_payments st none = (none, st)
  with_payments st (some (a, s)) = (some a, record st { payments = s })

  -- FindOneAndUpdate with the key in the filter; `none` is ErrNoDocuments.
  abbrev pub find_one_and_update :
      String
      → (PaymentDoc → Bool)
      → (PaymentDoc → PaymentDoc)
      → Command (Store S) (Option PaymentDoc)
  find_one_and_update id filter update st =
      some (with_payments st (S.payments.update id filter update st.payments))

  -- The same by a filter on the embedded refunds.
  abbrev pub find_payment_where : (PaymentDoc → Bool) → Command (Store S) (Option PaymentDoc)
  find_payment_where filter st = some (S.payments.find_where filter st.payments, st)

  abbrev pub find_one_and_update_where :
      (PaymentDoc → Bool) → (PaymentDoc → PaymentDoc) → Command (Store S) (Option PaymentDoc)
  find_one_and_update_where filter update st =
      some (with_payments st (S.payments.update_where filter update st.payments))

  unfoldable pub apply_balance_delta : String → Currency → ℤ → ℤ → Action (Store S) Unit
  apply_balance_delta merchant currency balance_delta fees_delta = do
    t ← now
    exec λ st. some (
      tt,
      record st {
        merchants =
            S.merchants.upsert (new_merchant merchant currency balance_delta fees_delta t)
              (add_to_balances currency balance_delta fees_delta t) st.merchants;
      },
    )
