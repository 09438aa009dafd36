-- ===== src/Mongo/Tests.antt =====
-- The Mongo store on concrete documents: tests, and the theorems at inputs that they apply to.
use mathlib.Core.Path.{subst}
use gripe.Contract.SettleRefund
use gripe.Contract.SettleRefund.{AgreesSettled}
use gripe.Mongo.Refunds.Unique.{HasUniqueRefunds}
use gripe.Mongo.Refunds.Elements.{Distinct}
use gripe.Mongo.Refunds.Settled.{refunds_view, settle_refund-AgreesSettled_mongo}
use gripe.Common.{
  false, sym, ◌∙◌, ℕ, String, ◌≡◌, ◌&&◌, refl, none, some, List, [], ◌∷◌, eq_iff, arith, ◌==◌, ◌⊎◌,
  eqb, is_blank, if◌then◌else◌,
}
use gripe.Int.{pos, ◌+ℤ◌, ◌-ℤ◌}
use gripe.Int.Word.{mul64, add64, sub64, neg64, quot, rem, scale, wrap}
use gripe.Domain.{
  usd, card, bank_transfer, captured, created, RefundStatus, Currency, PaymentStatus, pending,
  CreatePaymentInput, currency_valid, method_valid, currency_eq,
}
use gripe.Domain.Money.{gripe_fee}
use gripe.Exec.{World, answered, refused, err, driver, invalid_state, ok, ◌>>=◌}
use gripe.Storage.Listed.{listed}
use gripe.Contract.{credit}
use gripe.Mongo.Refunds.Debit.{settle_refund-debits}
use gripe.Mongo.{
  Server, Store, PaymentDoc, MerchantDoc, RefundElem, refund_to_domain, to_domain, increment,
  contains,
}
use gripe.Mongo.View.{view}
use gripe.Mongo.Sound.{AllSound}
use gripe.Mongo.Create.{create_payment, refuses, initial_status}
use gripe.Mongo.Transitions.{settle_payment}
use gripe.Mongo.Transitions.Once.{settle_payment-twice, settle_payment_loses_credit}
use gripe.Mongo.Refunds.{refund_payment, settle_refund, has_id, any_refund, settle_element, locate}
use gripe.Mongo.History.{Call, create, settle, refund, settle_refund_of, serve, serve-AllSound}

abbrev pub server : Server
server = record {
  payments = listed ◌==◌ (λ d. d.id) eq_iff;
  merchants = listed ◌==◌ (λ d. d.id) eq_iff;
  customers = listed ◌==◌ (λ d. d.id) eq_iff;
  subscriptions = listed ◌==◌ (λ d. d.id) eq_iff;
}

abbrev pub world_of : List PaymentDoc → World (Store server)
world_of ds = record {
  db = record { payments = ds; merchants = []; customers = []; subscriptions = []; seen = [] };
  outcomes = λ _. answered;
  readings = λ n. n;
  random = λ n. "a1";
}

abbrev pub input : CreatePaymentInput
input = record {
  merchant_id = "mer_1";
  customer_id = "cus_1";
  amount_minor = pos 10000;
  currency = usd;
  method = card;
}

abbrev new_merchant : MerchantDoc
new_merchant = record { id = "mer_1"; created_at = some 0; balances = []; updated_at = none }

abbrev merchant_after : ℕ → ℕ → ℕ → MerchantDoc
merchant_after t owed fees = record new_merchant {
  balances = (usd, record { balance_minor = pos owed; fees_minor = pos fees }) ∷ [];
  updated_at = some t;
}

abbrev calls : List Call
calls =
    create input "k" ∷ settle "pay_a1" ∷ refund "pay_a1" (pos 4000) ∷ settle_refund_of "re_a1" ∷ []

-- 97.00 is credited for the payment, and 38.80 debited for the refund.
served-merchants :
    (serve server calls (world_of [])).db.merchants
    ≡ merchant_after 6 5820 180 ∷ merchant_after 3 9700 300 ∷ new_merchant ∷ []
unfolding serve create_payment settle_payment refund_payment settle_refund refuses is_blank
    currency_valid method_valid initial_status contains any_refund settle_element locate increment
    currency_eq gripe_fee mul64 add64 sub64 neg64 quot rem scale wrap ◌+ℤ◌ ◌-ℤ◌ ◌>>=◌
served-merchants = refl

serve-AllSound_example : AllSound server (serve server calls (world_of [])).db
serve-AllSound_example =
    serve-AllSound server calls (world_of []) (record { at = λ k d h. ground arith })

abbrev pub bank_payment : PaymentDoc
bank_payment = record {
  id = "pay_b";
  merchant_id = "mer_1";
  customer_id = "cus_1";
  amount_minor = pos 10000;
  currency = usd;
  method = bank_transfer;
  status = pending;
  refunded_minor = pos 0;
  network_fee_minor = pos 0;
  created_at = 7;
  updated_at = 7;
  refunds = [];
}

abbrev pub pending_world : World (Store server)
pending_world = world_of (bank_payment ∷ [])

-- The credit is lost where the second command is.
abbrev cut_world : World (Store server)
cut_world = record pending_world { outcomes = λ n. if eqb n 1 then refused else answered }

settle_payment_loses_credit_example :
    let (r, w') = settle_payment server "pay_b" cut_world in
    (r ≡ err driver)
    × (server.payments.find "pay_b" w'.db.payments
        ≡ some (record bank_payment { status = PaymentStatus.settled; updated_at = 0 }))
    × (w'.db.merchants ≡ cut_world.db.merchants)
settle_payment_loses_credit_example =
    settle_payment_loses_credit server "pay_b" cut_world bank_payment refl refl refl refl

settle_payment-twice_example :
    let (r, w') = settle_payment server "pay_b" pending_world in
    let (r', w'') = settle_payment server "pay_b" w' in
    (w''.db ≡ w'.db) × ((r' ≡ err invalid_state) ⊎ (r' ≡ err driver))
unfolding settle_payment increment gripe_fee mul64 add64 sub64 quot rem scale wrap ◌+ℤ◌ ◌-ℤ◌ ◌>>=◌
settle_payment-twice_example =
    settle_payment-twice server "pay_b" pending_world
      (to_domain (record bank_payment { status = PaymentStatus.settled; updated_at = 0 })) refl

-- Captured and refunded in part, never settled.
abbrev open_refund : RefundElem
open_refund = record { id = "re_1"; amount_minor = pos 1000; status = created; created_at = 9 }

abbrev unsettled_payment : PaymentDoc
unsettled_payment = record bank_payment {
  status = captured;
  refunded_minor = pos 1000;
  refunds = open_refund ∷ [];
}

abbrev unsettled_world : World (Store server)
unsettled_world = world_of (unsettled_payment ∷ [])

settle_refund-debits_example :
    let (result, w') = settle_refund server "re_1" unsettled_world in
    let fee = gripe_fee (pos 1000) in
    (result
      ≡ ok (
          refund_to_domain
            (record open_refund { status = RefundStatus.settled })
            unsettled_payment))
    × ((m : String) (c : Currency)
        → (view server w'.db).ledger m c ≡ (
            if "mer_1" == m && currency_eq usd c
            then credit
                (neg64 (sub64 (pos 1000) fee))
                (neg64 fee)
                ((view server unsettled_world.db).ledger m c)
            else (view server unsettled_world.db).ledger m c))
unfolding any_refund settle_element locate
settle_refund-debits_example =
    settle_refund-debits server "re_1" unsettled_world (λ n. refl) unsettled_payment
      (record open_refund { status = RefundStatus.settled }) refl refl refl

the_payment :
    (k : String) (d : PaymentDoc)
    → server.payments.find k unsettled_world.db.payments ≡ some d
    → d ≡ unsettled_payment
the_payment k d found = ground arith

unsettled-HasUniqueRefunds : HasUniqueRefunds server unsettled_world.db.payments
unfolding any_refund
unsettled-HasUniqueRefunds = record {
  one_payment =
      λ k d k' d' i found found' has has'. the_payment k d found ∙ sym (the_payment k' d' found');
  distinct = λ k d found.
      subst (λ (p : PaymentDoc). Distinct p.refunds) (sym (the_payment k d found)) (refl, tt);
  named = λ k d found.
      subst (λ (p : PaymentDoc). any_refund (has_id "") p.refunds ≡ false)
        (sym (the_payment k d found)) refl;
}

settle_refund-AgreesSettled_mongo_example :
    let (r, w') = settle_refund server "re_1" unsettled_world in
    AgreesSettled r (refunds_view server w'.db) (view server w'.db) (
      SettleRefund.settle_refund "re_1"
        (refunds_view server unsettled_world.db)
        (view server unsettled_world.db))
settle_refund-AgreesSettled_mongo_example =
    settle_refund-AgreesSettled_mongo server "re_1" unsettled_world (λ n. refl)
      unsettled-HasUniqueRefunds
