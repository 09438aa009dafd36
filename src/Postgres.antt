-- ===== src/Postgres.antt =====
-- store/postgres/store.go: the rows, the tables of the migrations, transactions and what the methods
-- share. A statement that breaks a primary key or a foreign key is refused by the server.
pub mod Create
pub mod Idempotency
pub mod Transitions
pub mod Refunds
pub mod View
pub mod Calls
pub mod History
pub mod Sound
pub mod Listing
pub mod Reports
pub mod Subscriptions
pub mod Tests
use gripe.Common.{
  ℕ, String, Bool, true, false, Option, none, some, List, [], ◌∷◌, ◌==◌, ◌&&◌, ◌||◌, if◌then◌else◌,
}
use gripe.Int.{ℤ, pos, ◌+ℤ◌}
use gripe.Domain.{
  Time, Currency, PaymentMethod, PaymentStatus, Payment, RefundStatus, SubscriptionCadence,
  SubscriptionStatus, Subscription, currency_eq,
}
use gripe.Storage.{Collection}
use gripe.Exec.{Action, Command, exec, pure, raise, if_found, not_found, ◌>>=◌, ◌>>◌}

-- The fee is NULL until it is set.
pub record PaymentRow : Type 0 where
  pub id : String
  pub merchant_id : String
  pub customer_id : String
  pub amount_minor : ℤ
  pub currency : Currency
  pub method : PaymentMethod
  pub status : PaymentStatus
  pub refunded_minor : ℤ
  pub network_fee_minor : Option ℤ
  pub created_at : Time
  pub updated_at : Time

-- `merchants` and `customers`.
pub record PartyRow : Type 0 where
  pub id : String
  pub created_at : Time

pub record RefundRow : Type 0 where
  pub id : String
  pub payment_id : String
  pub amount_minor : ℤ
  pub status : RefundStatus
  pub created_at : Time

-- `subscriptions`, with `updated_at` NULL until the first change.
pub record SubscriptionRow : Type 0 where
  pub id : String
  pub merchant_id : String
  pub customer_id : String
  pub amount_minor : ℤ
  pub currency : Currency
  pub method : PaymentMethod
  pub cadence : SubscriptionCadence
  pub status : SubscriptionStatus
  pub next_charge_at : Time
  pub next_cycle_idx : ℤ
  pub created_at : Time
  pub updated_at : Option Time

-- `merchant_balances`, with the primary key (merchant_id, currency).
pub record BalanceRow : Type 0 where
  pub merchant_id : String
  pub currency : Currency
  pub balance_minor : ℤ
  pub fees_minor : ℤ

abbrev pub balance_key : BalanceRow → String × Currency
balance_key b = (b.merchant_id, b.currency)

abbrev pub balance_key_eq : String × Currency → String × Currency → Bool
balance_key_eq (m, c) (n, d) = m == n && currency_eq c d

pub record Server : Type 1 where
  pub payments : Collection ◌==◌ (λ (r : PaymentRow). r.id)
  pub merchants : Collection ◌==◌ (λ (r : PartyRow). r.id)
  pub customers : Collection ◌==◌ (λ (r : PartyRow). r.id)
  pub refunds : Collection ◌==◌ (λ (r : RefundRow). r.id)
  pub balances : Collection balance_key_eq balance_key
  pub subscriptions : Collection ◌==◌ (λ (r : SubscriptionRow). r.id)

pub record Tables (S : Server) : Type 0 where
  pub payments : S.payments.State
  pub merchants : S.merchants.State
  pub customers : S.customers.State
  pub refunds : S.refunds.State
  pub balances : S.balances.State
  pub subscriptions : S.subscriptions.State

-- The committed tables, and the process's own cache of the actors that are known committed.
pub record Store (S : Server) : Type 0 where
  pub tables : Tables S
  pub seen : List String

abbrev pub exists : {A : Type 0} → Option A → Bool
exists none = false
exists (some _) = true

-- `COALESCE(network_fee_minor, 0)`
abbrev pub coalesce : Option ℤ → ℤ
coalesce none = pos 0
coalesce (some fee) = fee

abbrev pub to_payment : PaymentRow → Payment
to_payment r = record {
  id = r.id;
  merchant_id = r.merchant_id;
  customer_id = r.customer_id;
  amount_minor = r.amount_minor;
  currency = r.currency;
  method = r.method;
  status = r.status;
  refunded_minor = r.refunded_minor;
  network_fee_minor = coalesce r.network_fee_minor;
  created_at = r.created_at;
  updated_at = r.updated_at;
}

-- ON CONFLICT (merchant_id, currency) DO UPDATE
abbrev pub add_to_balance : ℤ → ℤ → BalanceRow → BalanceRow
add_to_balance balance_delta fees_delta b = record b {
  balance_minor = b.balance_minor +ℤ balance_delta;
  fees_minor = b.fees_minor +ℤ fees_delta;
}

module _ (S : Server) where
  -- `pool.Begin`: the tables as they are seen from within the transaction.
  unfoldable pub begin : Action (Store S) (Tables S)
  unfolding exec
  begin = exec λ st. some (st.tables, st)

  abbrev in_tx : {A : Type 0} → Store S → Option (A × Tables S) → Option ((A × Tables S) × Store S)
  in_tx st none = none
  in_tx st (some r) = some (r, st)

  -- `tx.Exec`, `tx.QueryRow`: the committed tables stay as they are.
  unfoldable pub tx_exec :
      {A : Type 0} → Command (Tables S) A → Tables S → Action (Store S) (A × Tables S)
  unfolding exec
  tx_exec c tx = exec λ st. in_tx st (c tx)

  -- `tx.Commit`. A method that returns before it has rolled back: `tx` is forgotten.
  unfoldable pub commit : Tables S → Action (Store S) Unit
  unfolding exec
  commit tx = exec λ st. some (tt, record st { tables = tx })

  abbrev committed : {A : Type 0} → Store S → Option (A × Tables S) → Option (A × Store S)
  committed st none = none
  committed st (some (a, t)) = some (a, record st { tables = t })

  -- `pool.Exec`, `pool.QueryRow`: one statement is a transaction of its own.
  unfoldable pub pool_exec : {A : Type 0} → Command (Tables S) A → Action (Store S) A
  unfolding exec
  pool_exec c = exec λ st. committed st (c st.tables)

  abbrev pub select_payment : String → Command (Tables S) (Option PaymentRow)
  select_payment id t = some (S.payments.find id t.payments, t)

  abbrev with_payments :
      {A : Type 0} → Tables S → Option (A × S.payments.State) → Option A × Tables S
  with_payments t none = (none, t)
  with_payments t (some (a, s)) = (some a, record t { payments = s })

  -- UPDATE payments ... WHERE id = id AND ... RETURNING; `none` is ErrNoRows.
  abbrev pub update_payment :
      String
      → (PaymentRow → Bool)
      → (PaymentRow → PaymentRow)
      → Command (Tables S) (Option PaymentRow)
  update_payment id filter update t =
      some (with_payments t (S.payments.update id filter update t.payments))

  unfoldable pub select_payment_by_id : String → Action (Store S) Payment
  select_payment_by_id id = do
    found ← pool_exec (select_payment id)
    if_found found (raise not_found) λ r. pure (to_payment r)

  -- The row refers to a merchant.
  abbrev pub upsert_balance : BalanceRow → Command (Tables S) Unit
  upsert_balance b t =
      if exists (S.merchants.find b.merchant_id t.merchants)
      then some (
        tt,
        record t {
          balances = S.balances.upsert b (add_to_balance b.balance_minor b.fees_minor) t.balances;
        },
      )
      else none

  unfoldable pub credit_balance :
      String → Currency → ℤ → ℤ → Tables S → Action (Store S) (Unit × Tables S)
  credit_balance merchant currency balance_delta fees_delta tx =
      tx_exec
        (upsert_balance (record {
          merchant_id = merchant;
          currency = currency;
          balance_minor = balance_delta;
          fees_minor = fees_delta;
        }))
        tx
