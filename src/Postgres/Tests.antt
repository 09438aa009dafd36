-- ===== src/Postgres/Tests.antt =====
-- The PostgreSQL store on concrete rows: tests, and the theorems at inputs that they apply to.
use gripe.Common.{ℕ, ◌≡◌, refl, none, some, List, [], ◌∷◌, eq_iff, arith, ◌==◌, ◌⊎◌, is_blank}
use gripe.Int.{pos, ◌+ℤ◌, ◌-ℤ◌}
use gripe.Int.Word.{mul64, add64, sub64, neg64, quot, rem, scale, wrap}
use gripe.Domain.{
  usd, card, bank_transfer, captured, created, Payment, pending, CreatePaymentInput,
  CreateSubscriptionInput, monthly, currency_valid, method_valid, currency_eq,
}
use gripe.Domain.Money.{gripe_fee}
use gripe.Exec.{World, Action, answered, lost, ok, err, driver, over_refund, ◌>>=◌, ◌>>◌}
use gripe.Storage.Listed.{listed}
use gripe.Contract.SettleRefund
use gripe.Contract.SettleRefund.{AgreesSettled}
use gripe.Postgres.Refunds.Settled.{refunds_view, settle_refund-AgreesSettled_postgres}
use gripe.Postgres.Sound.{IsSound}
use gripe.Postgres.History.{
  Call, create, settle, network_fee, refund, settle_refund_of, serve, serve-IsSound,
  create_subscription_of, cancel_subscription_of, due, advance_of,
}
use gripe.Postgres.{Server, Store, PaymentRow, BalanceRow, to_payment, balance_key, balance_key_eq}
use gripe.Postgres.View.{view, balance_key_eq_iff}
use gripe.Postgres.Create.{create_payment, contains, refuses, initial_status}
use gripe.Postgres.Transitions.{settle_payment, settle_network_fee, set_network_fee}
use gripe.Postgres.Transitions.Once.{settle_network_fee-once}
use gripe.Postgres.Transitions.Atomic.{settled_row, settle_payment-atomic}
use gripe.Postgres.Refunds.Overflow.{refund_payment_overflow}
use gripe.Contract
use gripe.Postgres.Refunds.{refund_payment, settle_refund}

abbrev pub server : Server
server = record {
  payments = listed ◌==◌ (λ r. r.id) eq_iff;
  merchants = listed ◌==◌ (λ r. r.id) eq_iff;
  customers = listed ◌==◌ (λ r. r.id) eq_iff;
  refunds = listed ◌==◌ (λ r. r.id) eq_iff;
  balances = listed balance_key_eq balance_key balance_key_eq_iff;
  subscriptions = listed ◌==◌ (λ r. r.id) eq_iff;
}

abbrev pub bank_payment : PaymentRow
bank_payment = record {
  id = "pay_b";
  merchant_id = "mer_1";
  customer_id = "cus_1";
  amount_minor = pos 10000;
  currency = usd;
  method = bank_transfer;
  status = pending;
  refunded_minor = pos 0;
  network_fee_minor = none;
  created_at = 7;
  updated_at = 7;
}

abbrev pub pending_world : World (Store server)
pending_world = record {
  db = record {
    tables = record {
      payments = bank_payment ∷ [];
      merchants = record { id = "mer_1"; created_at = 7 } ∷ [];
      customers = record { id = "cus_1"; created_at = 7 } ∷ [];
      refunds = [];
      balances = [];
      subscriptions = [];
    };
    seen = [];
  };
  outcomes = λ _. answered;
  readings = λ n. n;
  random = λ n. "a1";
}

abbrev balance_of : ℕ → ℕ → BalanceRow
balance_of owed fees = record {
  merchant_id = "mer_1";
  currency = usd;
  balance_minor = pos owed;
  fees_minor = pos fees;
}

abbrev pub input : CreatePaymentInput
input = record {
  merchant_id = "mer_1";
  customer_id = "cus_1";
  amount_minor = pos 10000;
  currency = usd;
  method = card;
}

-- 97.00 is credited for the payment, and 38.80 debited for the refund.
served : Action (Store server) Unit
unfolding ◌>>=◌
served = do
  create_payment server input "k"
  settle_payment server "pay_a1"
  refund_payment server "pay_a1" (pos 4000)
  settle_refund server "re_a1"
  (λ w. (ok tt, w))

served-balances :
    (served pending_world).1.db.tables.balances ≡ balance_of 5820 180 ∷ balance_of 9700 300 ∷ []
unfolding served create_payment settle_payment refund_payment settle_refund gripe_fee mul64 add64
    sub64 neg64 quot rem scale wrap ◌+ℤ◌ ◌-ℤ◌ currency_eq ◌>>=◌ refuses currency_valid method_valid
    is_blank initial_status
served-balances = refl

-- Every answer is lost, that of the commit included.
abbrev lost_world : World (Store server)
lost_world = record pending_world { outcomes = λ _. lost }

settle_payment-atomic_example :
    let (r, w') = settle_payment server "pay_b" lost_world in
    let after = record lost_world.db {
      tables = settled_row server 0 bank_payment lost_world.db.tables;
    } in
    ((w'.db ≡ lost_world.db) ⊎ (w'.db ≡ after)) × ((p : Payment) → r ≡ ok p → w'.db ≡ after)
settle_payment-atomic_example =
    settle_payment-atomic server "pay_b" lost_world bank_payment refl refl

-- A fee of 0 is stored, and the fee that comes next is not.
abbrev charged_world : World (Store server)
charged_world = record pending_world {
  db = record pending_world.db {
    tables = record pending_world.db.tables {
      payments = set_network_fee (pos 0) 0 bank_payment ∷ [];
    };
  };
}

settle_network_fee-once_example :
    let (result, w') = settle_network_fee server "pay_b" (pos 0) pending_world in
    let (result', v') = settle_network_fee server "pay_b" (pos 45) charged_world in
    let r' = set_network_fee (pos 0) 0 bank_payment in
    (result ≡ ok (to_payment r'))
    × (server.payments.find "pay_b" w'.db.tables.payments ≡ some r')
    × (result' ≡ ok (to_payment r'))
    × (v'.db ≡ charged_world.db)
settle_network_fee-once_example =
    settle_network_fee-once server "pay_b" pending_world charged_world (λ n. refl) (λ n. refl)
      bank_payment (pos 0) (pos 45) refl refl refl

pending-IsSound : IsSound server pending_world.db
unfolding contains
pending-IsSound = record {
  merchant_of = λ k r h. ground (arith, eq_iff "mer_1" r.merchant_id);
  customer_of = λ k r h. ground (arith, eq_iff "cus_1" r.customer_id);
  payment_of = λ k f h. ground arith;
  seen_merchant = λ id h. ground arith;
  seen_customer = λ id h. ground arith;
  subscriber_of = λ k r h. absurd (ground arith);
  fee_set = λ k r x h is. ground arith;
}

abbrev rent : CreateSubscriptionInput
rent = record {
  merchant_id = "mer_2";
  customer_id = "cus_2";
  amount_minor = pos 10000;
  currency = usd;
  method = card;
  cadence = monthly;
  start_at = 0;
}

abbrev calls : List Call
calls =
    create input "k"
    ∷ settle "pay_b"
    ∷ network_fee "pay_b" (pos 45)
    ∷ refund "pay_b" (pos 4000)
    ∷ settle_refund_of "re_a1"
    ∷ create_subscription_of rent
    ∷ cancel_subscription_of "sub_a1"
    ∷ due 9 (pos 10)
    ∷ advance_of "sub_a1" (pos 0) 9
    ∷ []

-- The answers are lost.
serve-IsSound_example : IsSound server (serve server calls lost_world).db
serve-IsSound_example =
    serve-IsSound server calls lost_world (tt, (tt, (refl, (tt, (tt, (tt, (tt, (tt, (tt, tt)))))))))
      pending-IsSound

-- Captured, with nothing refunded so far.
abbrev captured_world : World (Store server)
captured_world = record pending_world {
  db = record pending_world.db {
    tables = record pending_world.db.tables {
      payments = record bank_payment { status = captured } ∷ [];
    };
  };
}

-- One refund of 40.00, open.
abbrev refunded_world : World (Store server)
refunded_world = record captured_world {
  db = record captured_world.db {
    tables = record captured_world.db.tables {
      payments = record bank_payment { status = captured; refunded_minor = pos 4000 } ∷ [];
      refunds =
          record {
            id = "re_1";
            payment_id = "pay_b";
            amount_minor = pos 4000;
            status = created;
            created_at = 8;
          }
          ∷ [];
    };
  };
}

-- A second refund, of all that an int64 can hold.
refund_payment_overflow_example :
    let all = pos 9223372036854775807 in
    ((refund_payment server "pay_b" all refunded_world).0 ≡ err driver)
    × ((refund_payment server "pay_b" all refunded_world).1.db ≡ refunded_world.db)
    × ((Contract.refund "re_2" 9 all "pay_b" (view server refunded_world.db.tables)).0
        ≡ err over_refund)
unfolding ◌+ℤ◌
refund_payment_overflow_example =
    refund_payment_overflow server "pay_b" "re_2" 9 (pos 9223372036854775807)
      (record bank_payment { status = captured; refunded_minor = pos 4000 }) refunded_world refl
      refl refl refl refl

refunded-IsSound : IsSound server refunded_world.db
unfolding contains
refunded-IsSound = record {
  merchant_of = λ k r h. ground (arith, eq_iff "mer_1" r.merchant_id);
  customer_of = λ k r h. ground (arith, eq_iff "cus_1" r.customer_id);
  payment_of = λ k f h. ground (arith, eq_iff "pay_b" f.payment_id);
  seen_merchant = λ id h. ground arith;
  seen_customer = λ id h. ground arith;
  subscriber_of = λ k r h. absurd (ground arith);
  fee_set = λ k r x h is. ground arith;
}

settle_refund-AgreesSettled_postgres_example :
    let (r, w') = settle_refund server "re_1" refunded_world in
    AgreesSettled r (refunds_view server w'.db.tables) (view server w'.db.tables) (
      SettleRefund.settle_refund "re_1"
        (refunds_view server refunded_world.db.tables)
        (view server refunded_world.db.tables))
settle_refund-AgreesSettled_postgres_example =
    settle_refund-AgreesSettled_postgres server "re_1" refunded_world (λ n. refl) refunded-IsSound
