-- ===== src/Mongo/Create/Stored.antt =====
-- CreatePayment and what it stores.
use gripe.Common.{
  String, ◌≡◌, refl, ap, true, false, Bool-cases, inl, inr, ◌∙◌, sym, none, some, arith, ◌==◌,
  eq_refl,
}
use gripe.Domain.{Time, Payment, CreatePaymentInput}
use gripe.Exec.{World, Result, ok, err, continue, exec, ◌>>=◌, new_payment_id, invalid_state}
use gripe.Exec.Stable.{Stable, Stable-exec, stable_rules}
use gripe.Mongo.{Server, Store, PaymentDoc, to_domain}
use gripe.Mongo.Create.{
  refuses, new_payment, upsert_merchant, upsert_customer, mark_seen, onboard_actors, store_payment,
  create_payment,
}

-- A store whose payments and subscriptions are those of another.
pub record SameDocs (S : Server) (st st' : Store S) : Type 0 where
  pub payments : st'.payments ≡ st.payments
  pub subscriptions : st'.subscriptions ≡ st.subscriptions

-- What a client gave, in the payment.
abbrev pub IsFor : CreatePaymentInput → Payment → Type 0
IsFor input p =
    (p.merchant_id ≡ input.merchant_id)
    × (p.customer_id ≡ input.customer_id)
    × (p.amount_minor ≡ input.amount_minor)
    × (p.currency ≡ input.currency)
    × (p.method ≡ input.method)

module _ (S : Server) where
  -- One new payment, under an id that was free.
  pub record Adds (input : CreatePaymentInput) (p : Payment) (st st' : Store S) : Type 0 where
    pub free : S.payments.find p.id st.payments ≡ none
    pub stored : (d : PaymentDoc) × (S.payments.find p.id st'.payments ≡ some d) × (to_domain d ≡ p)
    pub asked : IsFor input p
    pub others :
        (k : String)
        → (p.id == k) ≡ false
        → S.payments.find k st'.payments ≡ S.payments.find k st.payments
    pub subscriptions : st'.subscriptions ≡ st.subscriptions

  upsert_merchant-SameDocs :
      (base : Store S) (id : String) (t : Time)
      → Stable (SameDocs S base) (exec (upsert_merchant S id t))
  upsert_merchant-SameDocs base id t =
      Stable-exec (upsert_merchant S id t) λ st h a st' e. ground arith

  upsert_customer-SameDocs :
      (base : Store S) (id : String) (t : Time)
      → Stable (SameDocs S base) (exec (upsert_customer S id t))
  upsert_customer-SameDocs base id t =
      Stable-exec (upsert_customer S id t) λ st h a st' e. ground arith

  mark_seen-SameDocs :
      (base : Store S) (k : String) (st : Store S)
      → SameDocs S base st
      → SameDocs S base (mark_seen S k st)
  mark_seen-SameDocs base k st h = record { payments = h.payments; subscriptions = h.subscriptions }

  onboard_actors-SameDocs :
      (base : Store S) (m c : String) → Stable (SameDocs S base) (onboard_actors S m c)
  unfolding onboard_actors
  onboard_actors-SameDocs base m c =
      search
        (stable_rules, upsert_merchant-SameDocs, upsert_customer-SameDocs, mark_seen-SameDocs base)
        depth 10

  store_payment-inversion :
      (input : CreatePaymentInput) (p : Payment) (w w' : World (Store S))
      → store_payment S input w ≡ (ok p, w')
      → let d = new_payment (new_payment_id w) (w.readings 0) input in
        (S.payments.find d.id w.db.payments ≡ none)
        × (p ≡ to_domain d)
        × (w'.db ≡ record w.db { payments = S.payments.write d w.db.payments })
  unfolding store_payment ◌>>=◌
  store_payment-inversion input p w w' h =
      let d = new_payment (new_payment_id w) (w.readings 0) input in
      let taken = S.payments.insert_lem d w.db.payments in ground arith

  store_payment-Adds :
      (input : CreatePaymentInput) (p : Payment) (w w' : World (Store S))
      → store_payment S input w ≡ (ok p, w')
      → Adds input p w.db w'.db
  store_payment-Adds input p w w' h =
      let d = new_payment (new_payment_id w) (w.readings 0) input in
      let (free, same, after) = store_payment-inversion input p w w' h in
      let put = λ (k : String). S.payments.find-write d k w.db.payments in
      rw (same, after)
        (record {
          free = free;
          stored = (d, put d.id ∙ rw (eq_refl d.id) refl, refl);
          asked = (refl, refl, refl, refl, refl);
          others = λ k ne. put k ∙ rw ne refl;
          subscriptions = refl;
        })

  onboarded-Adds :
      (input : CreatePaymentInput) (p : Payment) (w : World (Store S)) (r : Result Unit)
      (w1 w' : World (Store S))
      → SameDocs S w.db w1.db
      → continue r (λ _. store_payment S input) w1 ≡ (ok p, w')
      → Adds input p w.db w'.db
  onboarded-Adds input p w (err e) w1 w' same h = absurd (ground arith)
  onboarded-Adds input p w (ok u) w1 w' same h =
      let added = store_payment-Adds input p w1 w' h in
      record {
        free = rw same.payments at added.free;
        stored = added.stored;
        asked = added.asked;
        others = λ k ne. added.others k ne ∙ ap (S.payments.find k) same.payments;
        subscriptions = added.subscriptions ∙ same.subscriptions;
      }

  pub create_payment-refused :
      (input : CreatePaymentInput) (key : String) (w : World (Store S))
      → refuses input ≡ true
      → create_payment S input key w ≡ (err invalid_state, w)
  unfolding create_payment ◌>>=◌
  create_payment-refused input key w bad = rw bad

  pub create_payment-onboarded :
      (input : CreatePaymentInput) (key : String) (w : World (Store S))
      → refuses input ≡ false
      → create_payment S input key w ≡ (
          let (r, w1) = onboard_actors S input.merchant_id input.customer_id w in
          continue r (λ _. store_payment S input) w1)
  unfolding create_payment ◌>>=◌
  create_payment-onboarded input key w good = rw good

  -- A CreatePayment that returns a payment has stored it, under an id that was free, as the client
  -- asked for it; it has changed no other payment and no subscription, whatever became of its
  -- commands.
  pub create_payment-Adds :
      (input : CreatePaymentInput) (key : String) (p : Payment) (w w' : World (Store S))
      → create_payment S input key w ≡ (ok p, w')
      → Adds input p w.db w'.db
  create_payment-Adds input key p w w' h = elim (Bool-cases (refuses input)) [
    | inl bad ↦ absurd (let refused = create_payment-refused input key w bad in ground arith)
    | inr good ↦
        let (r, w1) = onboard_actors S input.merchant_id input.customer_id w in
        let same =
          (onboard_actors-SameDocs w.db input.merchant_id input.customer_id).stays w
            (record { payments = refl; subscriptions = refl }) in
        onboarded-Adds input p w r w1 w' same (sym (create_payment-onboarded input key w good) ∙ h)
  ]
