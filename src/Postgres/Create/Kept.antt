-- ===== src/Postgres/Create/Kept.antt =====
-- CreatePayment against the contract, with a server that answers.
use mathlib.Core.Path.{subst}
use gripe.Common.{
  String, ◌≡◌, refl, ap, true, false, Bool-cases, Option-cases, inl, inr, ◌∙◌, sym, suc, arith, not,
}
use gripe.Int.{ℤ}
use gripe.Domain.{
  Time, Payment, PaymentMethod, card, direct_debit, bank_transfer, apple_pay, google_pay,
  CreatePaymentInput,
}
use gripe.Contract.{Agrees}
use gripe.Contract.Calls
use gripe.Contract.Calls.{is_admissible, first_status, first_payment}
use gripe.Exec.{
  World, Action, Result, ok, err, pure, modify, ◌>>◌, continue, IsCalm, ◌>>=◌, new_payment_id,
  invalid_state,
}
use gripe.Postgres.{Server, Store, Tables, exists, to_payment, begin, tx_exec, commit}
use gripe.Postgres.View.{view, payment_view-write}
use gripe.Postgres.Create.{
  refuses, initial_status, new_payment, upsert_parties, insert_payment, mark_seen, create_payment,
}
use gripe.Postgres.Sound.{IsSound}
use gripe.Postgres.Create.Onboard.{Parties, upsert_parties-Parties}

refuses-not_admissible : (input : CreatePaymentInput) → refuses input ≡ not (is_admissible input)
unfolding refuses
refuses-not_admissible input = ground arith

initial_status-first : (m : PaymentMethod) (a : ℤ) → initial_status m a ≡ first_status m a
unfolding initial_status
initial_status-first card a = refl
initial_status-first direct_debit a = refl
initial_status-first bank_transfer a = refl
initial_status-first apple_pay a = refl
initial_status-first google_pay a = refl
initial_status-first (PaymentMethod.other s) a = refl

module _ (S : Server) where
  -- The world in which the transaction has begun.
  abbrev within : World (Store S) → World (Store S)
  within w = record w {
    outcomes = λ n. w.outcomes (suc n);
    readings = λ n. w.readings (suc n);
    random = λ n. w.random (suc n);
  }

  -- The rest of CreatePayment.
  abbrev finish :
      CreatePaymentInput → String → Time → Unit {0} × Tables S → Action (Store S) Payment
  finish input id t onboarded = do
    inserted ← tx_exec S (insert_payment S (new_payment id t input)) onboarded.1
    commit S inserted.1
    modify (mark_seen S input.merchant_id input.customer_id)
    pure (to_payment (new_payment id t input))

  finish-Agrees :
      (input : CreatePaymentInput) (id : String) (t : Time) (tx : Tables S) (w : World (Store S))
      → IsCalm w
      → is_admissible input ≡ true
      → exists (S.merchants.find input.merchant_id tx.merchants) ≡ true
      → exists (S.customers.find input.customer_id tx.customers) ≡ true
      → tx.payments ≡ w.db.tables.payments
      → tx.balances ≡ w.db.tables.balances
      → let (r, w') = finish input id t (tt, tx) w in
        Agrees r (view S w'.db.tables) (Calls.create_payment id t input (view S w.db.tables))
  unfolding ◌>>=◌ tx_exec commit
  finish-Agrees input id t tx w calm good merchant customer payments balances =
      let r = new_payment id t input in
      let c0 = calm 0 in
      let c1 = calm 1 in
      let put = S.payments.insert_lem r tx.payments in
      let first = initial_status-first input.method input.amount_minor in
      elim (Option-cases (S.payments.find id w.db.tables.payments)) [
        | inl free ↦ (
          ground arith,
          record {
            payments = λ k. ground (arith, payment_view-write S r k w.db.tables.payments);
            ledgers = λ m c. ground arith;
          },
        )
        | inr (other, taken) ↦
            (ground arith, record { payments = λ k. ground arith; ledgers = λ m c. ground arith })
      ]

  create_payment-finish :
      (input : CreatePaymentInput) (key : String) (w : World (Store S))
      → IsCalm w
      → refuses input ≡ false
      → create_payment S input key w ≡ (
          let (r, w1) =
            upsert_parties S input.merchant_id input.customer_id w.db.tables (within w) in
          continue r (finish input (new_payment_id w) (w.readings 0)) w1)
  unfolding create_payment ◌>>=◌ begin
  create_payment-finish input key w calm good = rw (good, calm 0)

  onboarded-Agrees :
      (input : CreatePaymentInput) (id : String) (t : Time) (w : World (Store S))
      (r : Result (Unit {0} × Tables S)) (w1 : World (Store S))
      → Parties S input.merchant_id input.customer_id w.db.tables w r w1
      → is_admissible input ≡ true
      → let (r, w') = continue r (finish input id t) w1 in
        Agrees r (view S w'.db.tables) (Calls.create_payment id t input (view S w.db.tables))
  onboarded-Agrees input id t w (err e) w1 h good =
      absurd (let no = h.onboards.returns in ground arith)
  onboarded-Agrees input id t w (ok (u, tx)) w1 h good =
      let o = h.onboards in
      let e = o.returns in
      let same : tx ≡ o.tables = ground arith in
      let still : w1.db ≡ w.db = o.db in
      subst
        (λ (d : Store S).
          let (r, w') = finish input id t (tt, tx) w1 in
          Agrees r (view S w'.db.tables) (Calls.create_payment id t input (view S d.tables)))
        o.db
        (finish-Agrees input id t tx w1 o.calm good
          (subst (λ (t : Tables S). exists (S.merchants.find input.merchant_id t.merchants) ≡ true)
            (sym same) h.merchant)
          (subst (λ (t : Tables S). exists (S.customers.find input.customer_id t.customers) ≡ true)
            (sym same) h.customer)
          (ap (λ (t : Tables S). t.payments) same
            ∙ (o.payments ∙ ap (λ (d : Store S). d.tables.payments) (sym o.db)))
          (ap (λ (t : Tables S). t.balances) same
            ∙ (o.balances ∙ ap (λ (d : Store S). d.tables.balances) (sym o.db))))

  create_payment-refused :
      (input : CreatePaymentInput) (key : String) (w : World (Store S))
      → refuses input ≡ true
      → create_payment S input key w ≡ (err invalid_state, w)
  unfolding create_payment ◌>>=◌
  create_payment-refused input key w bad = rw bad

  -- While the server answers, and the tables and the cache of actors are linked as they should be,
  -- CreatePayment does what the contract says: an admissible input becomes a payment with the new id,
  -- in the first status of its method and amount; a refused one is ErrInvalidState, an id that is taken
  -- an error of the server; no other payment and no balance changes.
  pub create_payment-Agrees_postgres :
      (input : CreatePaymentInput) (key : String) (w : World (Store S))
      → IsCalm w
      → IsSound S w.db
      → let (r, w') = create_payment S input key w in
        Agrees r
          (view S w'.db.tables)
          (Calls.create_payment (new_payment_id w) (w.readings 0) input (view S w.db.tables))
  create_payment-Agrees_postgres input key w calm sound =
      let good = refuses-not_admissible input in
      elim (Bool-cases (refuses input)) [
        | inl bad ↦
            rw (create_payment-refused input key w bad)
              (ground arith, record { payments = λ k. ground arith; ledgers = λ m c. ground arith })
        | inr fine ↦
            let (r, w1) =
              upsert_parties S input.merchant_id input.customer_id w.db.tables (within w) in
            rw (create_payment-finish input key w calm fine) (
              onboarded-Agrees input (new_payment_id w) (w.readings 0) (within w) r w1
                (upsert_parties-Parties S input.merchant_id input.customer_id (within w)
                  (λ n. calm (suc n)) sound)
                (ground arith))
      ]
