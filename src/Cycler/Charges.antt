-- ===== src/Cycler/Charges.antt =====
-- chargeOne over the Mongo store: what a charge leaves, and what a failure after the payment leads to.
use gripe.Common.{◌≡◌, ◌∙◌, sym, ap, refl, false, some, ◌==◌, arith, eq_iff, Bool-cases, inl, inr}
use gripe.Domain.{Payment, Subscription}
use gripe.Domain.Cadence.{advance}
use gripe.Exec.{World, Result, ok, err, driver, refused, Action, continue, ◌>>=◌}
use gripe.Mongo.{Server, Store, PaymentDoc, to_domain}
use gripe.Mongo.Create.{create_payment}
use gripe.Mongo.Create.Stored.{IsFor, create_payment-Adds}
use gripe.Mongo.Subscriptions.{advance_subscription}
use gripe.Mongo.Subscriptions.Cycle.{advance_subscription-payments, advance_subscription-refused}
use gripe.Cycler.{idem_key, charge_of, charge_one}
use gripe.Cycler.Backends.{mongo_advancer}

module _ (S : Server) (sub : Subscription) where
  -- The second step.
  abbrev advance_it : Action (Store S) Unit
  advance_it =
      advance_subscription S sub.id sub.next_cycle_idx (advance sub.cadence sub.next_charge_at)

  after_payment :
      (w w1 : World (Store S)) (p : Payment)
      → create_payment S (charge_of sub) (idem_key sub) w ≡ (ok p, w1)
      → charge_one (mongo_advancer S) sub w ≡ advance_it w1
  unfolding charge_one ◌>>=◌
  after_payment w w1 p h = rw h

  -- A charge that returns has made its payment, and has advanced the subscription after that.
  charge_inversion :
      (w w' : World (Store S))
      → charge_one (mongo_advancer S) sub w ≡ (ok tt, w')
      → (p : Payment) × (w1 : World (Store S)) × (create_payment S (charge_of sub) (idem_key sub) w
          ≡ (ok p, w1))
        × (advance_it w1 ≡ (ok tt, w'))
  unfolding charge_one ◌>>=◌
  charge_inversion w w' h = go (create_payment S (charge_of sub) (idem_key sub) w) refl h
    where
      go :
          (r : Result Payment × World (Store S))
          → create_payment S (charge_of sub) (idem_key sub) w ≡ r
          → continue r.0 (λ p. advance_it) r.1 ≡ (ok tt, w')
          → (p : Payment) × (w1 : World (Store S)) × (create_payment S
                (charge_of sub)
                (idem_key sub)
                w
              ≡ (ok p, w1))
            × (advance_it w1 ≡ (ok tt, w'))
      go (ok p, w1) e k = (p, w1, e, k)
      go (err x, w1) e k = absurd (ground arith)

  -- Where the payment of a cycle was made and the command that advances the subscription did not
  -- reach the server, chargeOne returns an error and the subscription is as it was; a later chargeOne
  -- of it that returns without an error, on the store that the first one left, makes a second
  -- payment for the same cycle: both are stored, under different ids, with the same merchant,
  -- customer, amount, currency and method.
  pub charge_one_charges_twice :
      (p : Payment) (w w1 v v' : World (Store S))
      → create_payment S (charge_of sub) (idem_key sub) w ≡ (ok p, w1)
      → w1.outcomes 0 ≡ refused
      → v.db ≡ (charge_one (mongo_advancer S) sub w).1.db
      → charge_one (mongo_advancer S) sub v ≡ (ok tt, v')
      → ((charge_one (mongo_advancer S) sub w).0 ≡ err driver)
        × (v.db.subscriptions ≡ w.db.subscriptions)
        × (q : Payment) × IsFor (charge_of sub) p
        × IsFor (charge_of sub) q
        × ((p.id == q.id) ≡ false)
        × ((c : PaymentDoc) × (S.payments.find p.id v'.db.payments ≡ some c) × (to_domain c ≡ p))
        × ((d : PaymentDoc) × (S.payments.find q.id v'.db.payments ≡ some d) × (to_domain d ≡ q))
  charge_one_charges_twice p w w1 v v' made cut after again =
      let first = create_payment-Adds S (charge_of sub) (idem_key sub) p w w1 made in
      let (failed, kept) =
        advance_subscription-refused S sub.id sub.next_cycle_idx
          (advance sub.cadence sub.next_charge_at) w1 cut in
      let run = after_payment w w1 p made in
      let same_db : v.db ≡ w1.db = after ∙ ap (λ r. r.1.db) run ∙ kept in
      let (q, v1, made', moved) = charge_inversion v v' again in
      let second = create_payment-Adds S (charge_of sub) (idem_key sub) q v v1 made' in
      let same_payments : v'.db.payments ≡ v1.db.payments =
        sym (ap (λ r. r.1.db.payments) moved)
        ∙ advance_subscription-payments S sub.id sub.next_cycle_idx
            (advance sub.cadence sub.next_charge_at) v1 in
      let (c, stored, is_p) = first.stored in
      let (d, stored', is_q) = second.stored in
      let there : S.payments.find p.id v.db.payments ≡ some c =
        ap (λ (st : Store S). S.payments.find p.id st.payments) same_db ∙ stored in
      let differ : (p.id == q.id) ≡ false = elim (Bool-cases (p.id == q.id)) [
        | inl e ↦
            (let one : p.id ≡ q.id = (eq_iff p.id q.id).0 e in
              absurd (
                let hit = sym there ∙ ap (λ k. S.payments.find k v.db.payments) one ∙ second.free in
                ground arith))
        | inr e ↦ e
      ] in
      let differ' : (q.id == p.id) ≡ false = (ground (arith, eq_iff p.id q.id, eq_iff q.id p.id)) in
      (
        ap (λ r. r.0) run ∙ failed,
        ap (λ (st : Store S). st.subscriptions) same_db ∙ first.subscriptions,
        q,
        first.asked,
        second.asked,
        differ,
        (c, ap (S.payments.find p.id) same_payments ∙ second.others p.id differ' ∙ there, is_p),
        (d, ap (S.payments.find q.id) same_payments ∙ stored', is_q),
      )
