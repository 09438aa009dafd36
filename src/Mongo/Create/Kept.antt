-- ===== src/Mongo/Create/Kept.antt =====
-- CreatePayment against the contract, with a server that answers.
use Prim.Native.String.{◌++◌}
use gripe.Common.{
  ℕ, String, ◌≡◌, refl, ap, true, Bool-cases, Option-cases, inl, inr, suc, arith, not,
}
use mathlib.Core.Path.{subst}
use gripe.Mongo.Create.Stored.{create_payment-refused, create_payment-onboarded}
use gripe.Int.{ℤ}
use gripe.Domain.{
  Time, PaymentMethod, card, direct_debit, bank_transfer, apple_pay, google_pay, CreatePaymentInput,
}
use gripe.Contract.{Agrees, View, SameView-path}
use gripe.Contract.Calls
use gripe.Contract.Calls.{is_admissible, first_status, first_payment}
use gripe.Exec.{World, Result, ok, err, continue, IsCalm, ◌>>=◌, new_payment_id}
use gripe.Mongo.{Server, Store}
use gripe.Mongo.View.{view, payment_view, payment_view-write}
use gripe.Mongo.Create.{
  refuses, initial_status, new_payment, onboard_actors, store_payment, create_payment,
}
use gripe.Mongo.Create.Onboard.{Onboards, onboard_actors-Onboards}

refuses-not_admissible : (input : CreatePaymentInput) → refuses input ≡ not (is_admissible input)
unfolding refuses
refuses-not_admissible input = ground arith

initial_status-first : (m : PaymentMethod) (a : ℤ) → initial_status m a ≡ first_status m a
unfolding initial_status
initial_status-first card a = refl
initial_status-first direct_debit a = refl
initial_status-first bank_transfer a = refl
initial_status-first apple_pay a = refl
initial_status-first google_pay a = refl
initial_status-first (PaymentMethod.other s) a = refl

module _ (S : Server) where
  store_payment-Agrees :
      (input : CreatePaymentInput) (w : World (Store S))
      → IsCalm w
      → is_admissible input ≡ true
      → let (r, w') = store_payment S input w in
        Agrees r
          (view S w'.db)
          (Calls.create_payment (new_payment_id w) (w.readings 0) input (view S w.db))
  unfolding store_payment ◌>>=◌
  store_payment-Agrees input w calm good =
      let d = new_payment (new_payment_id w) (w.readings 0) input in
      let c0 = calm 0 in
      let put = S.payments.insert_lem d w.db.payments in
      let first = initial_status-first input.method input.amount_minor in
      elim (Option-cases (S.payments.find d.id w.db.payments)) [
        | inl free ↦ (
          ground arith,
          record {
            payments = λ k. ground (arith, payment_view-write S d k w.db.payments);
            ledgers = λ m c. ground arith;
          },
        )
        | inr (other, taken) ↦
            (ground arith, record { payments = λ k. ground arith; ledgers = λ m c. ground arith })
      ]

  onboarded-Agrees :
      (input : CreatePaymentInput) (w : World (Store S)) (r : Result Unit) (w1 : World (Store S))
      → Onboards S (record w { readings = λ n. w.readings (suc n) }) r w1
      → is_admissible input ≡ true
      → let (r, w') = continue r (λ _. store_payment S input) w1 in
        Agrees r
          (view S w'.db)
          (Calls.create_payment (new_payment_id w) (w.readings 1) input (view S w.db))
  onboarded-Agrees input w (err e) w1 h good = absurd (let no = h.returns in ground arith)
  onboarded-Agrees input w (ok u) w1 h good =
      let same : view S w1.db ≡ view S w.db = SameView-path (view S w1.db) (view S w.db) (record {
        payments = λ k. ap (λ s. payment_view (S.payments.find k s)) h.payments;
        ledgers = h.ledgers;
      }) in
      let kept = store_payment-Agrees input w1 h.calm good in
      subst
        (λ (x : (ℕ → String) × (ℕ → Time) × View).
          let (r, w') = store_payment S input w1 in
          Agrees r (view S w'.db)
            (Calls.create_payment ("pay" ++ ("_" ++ x.0 0)) (x.1 0) input x.2))
        (λ i. (h.random i, h.readings i, same i)) kept

  -- While the server answers, CreatePayment does what the contract says: an admissible input becomes a
  -- payment with the new id, in the first status of its method and amount; a refused one is
  -- ErrInvalidState, an id that is taken an error of the server; no other payment and no balance
  -- changes.
  pub create_payment-Agrees_mongo :
      (input : CreatePaymentInput) (key : String) (w : World (Store S))
      → IsCalm w
      → let (r, w') = create_payment S input key w in
        Agrees r
          (view S w'.db)
          (Calls.create_payment (new_payment_id w) (w.readings 1) input (view S w.db))
  create_payment-Agrees_mongo input key w calm =
      let good = refuses-not_admissible input in
      elim (Bool-cases (refuses input)) [
        | inl bad ↦
            rw (create_payment-refused S input key w bad)
              (ground arith, record { payments = λ k. ground arith; ledgers = λ m c. ground arith })
        | inr fine ↦
            let (r, w1) = onboard_actors S input.merchant_id input.customer_id w in
            rw (create_payment-onboarded S input key w fine) (
              onboarded-Agrees input w r w1
                (onboard_actors-Onboards S input.merchant_id input.customer_id w calm)
                (ground arith))
      ]
