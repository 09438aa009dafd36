-- ===== src/Postgres/Sound.antt =====
-- What links the tables of the PostgreSQL store, and the store to its cache of actors.
pub mod Commands
pub mod Methods
pub mod Refunds
pub mod Create
pub mod Subscriptions
use Prim.Native.String.{◌++◌}
use gripe.Common.{
  String, ◌≡◌, refl, ap, ◌∙◌, Bool, true, false, Option, none, some, ◌==◌, arith, eq_iff,
  Option-cases, inl, inr, if◌then◌else◌,
}
use gripe.Int.{ℤ, pos, eqb_ℤ}
use gripe.Storage.{updated, matching}
use gripe.Exec.{World, Command, exec, ◌>>=◌}
use gripe.Exec.Triple.{Triple, Triple-exec, Triple-weaken, Gives}
use gripe.Postgres.{
  Server, Store, Tables, PaymentRow, RefundRow, SubscriptionRow, PartyRow, exists, begin, tx_exec,
  commit, pool_exec, in_tx, committed, with_payments, update_payment,
}
use gripe.Postgres.Create.{contains}

-- Each payment and each subscription has its merchant and its customer, each refund its payment; the actors in the cache are
-- committed; and a network fee that is set is not 0.
pub record IsSound (S : Server) (st : Store S) : Type 0 where
  pub merchant_of :
      (k : String) (r : PaymentRow)
      → S.payments.find k st.tables.payments ≡ some r
      → exists (S.merchants.find r.merchant_id st.tables.merchants) ≡ true
  pub customer_of :
      (k : String) (r : PaymentRow)
      → S.payments.find k st.tables.payments ≡ some r
      → exists (S.customers.find r.customer_id st.tables.customers) ≡ true
  pub payment_of :
      (k : String) (f : RefundRow)
      → S.refunds.find k st.tables.refunds ≡ some f
      → exists (S.payments.find f.payment_id st.tables.payments) ≡ true
  pub seen_merchant :
      (id : String)
      → contains ("m:" ++ id) st.seen ≡ true
      → exists (S.merchants.find id st.tables.merchants) ≡ true
  pub seen_customer :
      (id : String)
      → contains ("c:" ++ id) st.seen ≡ true
      → exists (S.customers.find id st.tables.customers) ≡ true
  pub subscriber_of :
      (k : String) (r : SubscriptionRow)
      → S.subscriptions.find k st.tables.subscriptions ≡ some r
      → (exists (S.merchants.find r.merchant_id st.tables.merchants) ≡ true)
        × (exists (S.customers.find r.customer_id st.tables.customers) ≡ true)
  pub fee_set :
      (k : String) (r : PaymentRow) (fee : ℤ)
      → S.payments.find k st.tables.payments ≡ some r
      → r.network_fee_minor ≡ some fee
      → eqb_ℤ fee (pos 0) ≡ false

-- The store is sound, and stays so if the transaction commits.
abbrev pub Within : (S : Server) → Tables S → Store S → Type 0
Within S tx st = IsSound S (record st { tables = tx })

-- A row that an UPDATE of `payments` rewrites keeps its actors.
pub record KeepsActors (update : PaymentRow → PaymentRow) : Type 0 where
  pub same_merchant : (r : PaymentRow) → (update r).merchant_id ≡ r.merchant_id
  pub same_customer : (r : PaymentRow) → (update r).customer_id ≡ r.customer_id
  pub fee_not_zero :
      (r : PaymentRow) (fee : ℤ)
      → ((x : ℤ) → r.network_fee_minor ≡ some x → eqb_ℤ x (pos 0) ≡ false)
      → (update r).network_fee_minor ≡ some fee
      → eqb_ℤ fee (pos 0) ≡ false

module _ (S : Server) where
  pub write_payment-IsSound :
      (r : PaymentRow) (st : Store S)
      → exists (S.merchants.find r.merchant_id st.tables.merchants) ≡ true
      → exists (S.customers.find r.customer_id st.tables.customers) ≡ true
      → ((fee : ℤ) → r.network_fee_minor ≡ some fee → eqb_ℤ fee (pos 0) ≡ false)
      → IsSound S st
      → IsSound S (record st {
        tables = record st.tables { payments = S.payments.write r st.tables.payments };
      })
  write_payment-IsSound r st merchant customer fee h = record {
    merchant_of = λ k e found.
        let old = h.merchant_of k e in ground (arith, S.payments.find-write r k st.tables.payments);
    customer_of = λ k e found.
        let old = h.customer_of k e in ground (arith, S.payments.find-write r k st.tables.payments);
    payment_of = λ k f found.
        let old = h.payment_of k f found in
        ground (arith, S.payments.find-write r f.payment_id st.tables.payments);
    seen_merchant = h.seen_merchant;
    seen_customer = h.seen_customer;
    subscriber_of = h.subscriber_of;
    fee_set = λ k e x found is.
        let old = h.fee_set k e x in
        let new = fee x in ground (arith, S.payments.find-write r k st.tables.payments);
  }

  pub write_merchant-IsSound :
      (r : PartyRow) (st : Store S)
      → IsSound S st
      → IsSound S (record st {
        tables = record st.tables { merchants = S.merchants.write r st.tables.merchants };
      })
  write_merchant-IsSound r st h = record {
    merchant_of = λ k e found.
        let old = h.merchant_of k e found in
        ground (arith, S.merchants.find-write r e.merchant_id st.tables.merchants);
    customer_of = h.customer_of;
    payment_of = h.payment_of;
    seen_merchant = λ id seen.
        let old = h.seen_merchant id seen in
        ground (arith, S.merchants.find-write r id st.tables.merchants);
    seen_customer = h.seen_customer;
    subscriber_of = λ k e found.
        let (merchant, customer) = h.subscriber_of k e found in
        (ground (arith, S.merchants.find-write r e.merchant_id st.tables.merchants), customer);
    fee_set = h.fee_set;
  }

  pub write_customer-IsSound :
      (r : PartyRow) (st : Store S)
      → IsSound S st
      → IsSound S (record st {
        tables = record st.tables { customers = S.customers.write r st.tables.customers };
      })
  write_customer-IsSound r st h = record {
    merchant_of = h.merchant_of;
    customer_of = λ k e found.
        let old = h.customer_of k e found in
        ground (arith, S.customers.find-write r e.customer_id st.tables.customers);
    payment_of = h.payment_of;
    seen_merchant = h.seen_merchant;
    seen_customer = λ id seen.
        let old = h.seen_customer id seen in
        ground (arith, S.customers.find-write r id st.tables.customers);
    subscriber_of = λ k e found.
        let (merchant, customer) = h.subscriber_of k e found in
        (merchant, ground (arith, S.customers.find-write r e.customer_id st.tables.customers));
    fee_set = h.fee_set;
  }

  pub write_refund-IsSound :
      (f : RefundRow) (st : Store S)
      → exists (S.payments.find f.payment_id st.tables.payments) ≡ true
      → IsSound S st
      → IsSound S (record st {
        tables = record st.tables { refunds = S.refunds.write f st.tables.refunds };
      })
  write_refund-IsSound f st parent h = record {
    merchant_of = h.merchant_of;
    customer_of = h.customer_of;
    payment_of = λ k g found.
        let old = h.payment_of k g in ground (arith, S.refunds.find-write f k st.tables.refunds);
    seen_merchant = h.seen_merchant;
    seen_customer = h.seen_customer;
    subscriber_of = h.subscriber_of;
    fee_set = h.fee_set;
  }

  pub write_subscription-IsSound :
      (r : SubscriptionRow) (st : Store S)
      → exists (S.merchants.find r.merchant_id st.tables.merchants) ≡ true
      → exists (S.customers.find r.customer_id st.tables.customers) ≡ true
      → IsSound S st
      → IsSound S (record st {
        tables = record st.tables {
          subscriptions = S.subscriptions.write r st.tables.subscriptions;
        };
      })
  write_subscription-IsSound r st merchant customer h = record {
    merchant_of = h.merchant_of;
    customer_of = h.customer_of;
    payment_of = h.payment_of;
    seen_merchant = h.seen_merchant;
    seen_customer = h.seen_customer;
    subscriber_of = λ k e found.
        let old = h.subscriber_of k e in
        (
          ground (arith, S.subscriptions.find-write r k st.tables.subscriptions),
          ground (arith, S.subscriptions.find-write r k st.tables.subscriptions),
        );
    fee_set = h.fee_set;
  }
