-- ===== src/FeeWorker/Delivery.antt =====
-- Messages of the queue, over the Mongo store: delivered, and delivered again.
use gripe.Common.{
  ℕ, ◌+◌, ◌-◌, ◌*◌, ◌/◌, ◌^◌, ◌≤◌, ◌<◌, String, ◌≡◌, ◌∙◌, refl, ap, sym, Bool, true, false, Option,
  some, arith, Option-cases, Bool-cases, inl, inr, if◌then◌else◌,
}
use gripe.Int.{ℤ, pos, sub_ℕ, leb_ℤ, ◌+ℤ◌}
use gripe.Int.Word.{add64, mul64, quot, scale, wrap, wrap_pos, wrap_high, add64-pos}
use gripe.Domain.{Payment}
use gripe.Exec.{World, Result, ok, err, IsCalm, invalid_state, Action, ◌>>=◌, attempt}
use gripe.Mongo.{Server, Store, PaymentDoc, to_domain}
use gripe.Mongo.Transitions.{has_no_network_fee, set_network_fee, settle_network_fee}
use gripe.FeeWorker.{PaymentCreated, mock_network_fee, is_settled, settle_event, handle_message}

mock_network_fee-pos :
    (n : ℕ) → n * 25 < 2 ^ 63 → mock_network_fee (pos n) ≡ pos (20 + n * 25 / 10000)
unfolding mock_network_fee mul64 scale quot
mock_network_fee-pos n h = rw (wrap_pos (n * 25) h) (add64-pos 20 (n * 25 / 10000) (omega arith))

add64-low : (q : ℕ) → 20 ≤ q → q < 2 ^ 62 → leb_ℤ (add64 (pos 20) (sub_ℕ 0 q)) (pos 0) ≡ true
unfolding add64 ◌+ℤ◌ wrap
add64-low q lo hi = ground arith

mock_network_fee-high :
    (n : ℕ)
    → 2 ^ 63 ≤ n * 25
    → n * 25 < 2 ^ 64 - 200000
    → leb_ℤ (mock_network_fee (pos n)) (pos 0) ≡ true
unfolding mock_network_fee mul64 scale quot
mock_network_fee-high n lo hi =
    rw (wrap_high (n * 25) lo (omega arith)) (add64-low _ (omega arith) (omega arith))

module _ (S : Server) where
  abbrev settle : String → ℤ → Action (Store S) Payment
  settle = settle_network_fee S

  -- A fee that is there stays.
  settle-charged :
      (id : String) (fee : ℤ) (d : PaymentDoc) (w : World (Store S))
      → S.payments.find id w.db.payments ≡ some d
      → has_no_network_fee d ≡ false
      → (settle id fee w).1.db ≡ w.db
  unfolding settle_network_fee ◌>>=◌
  settle-charged id fee d w found charged =
      let kept =
        S.payments.update_lem id has_no_network_fee (set_network_fee fee (w.readings 0))
          w.db.payments in
      ground arith

  -- A call that returned a payment leaves it with a fee.
  settle-charges :
      (id : String) (fee : ℤ) (p : Payment) (w w' : World (Store S))
      → settle id fee w ≡ (ok p, w')
      → (d : PaymentDoc) × (S.payments.find id w'.db.payments ≡ some d)
        × (has_no_network_fee d ≡ false)
  unfolding settle_network_fee ◌>>=◌
  settle-charges id fee p w w' h =
      let t = w.readings 0 in
      let kept =
        S.payments.update_lem id has_no_network_fee (set_network_fee fee t) w.db.payments in
      elim (Option-cases (S.payments.find id w.db.payments)) [
        | inl missing ↦ absurd (ground arith)
        | inr (d, found) ↦ elim (Bool-cases (has_no_network_fee d)) [
          | inl free ↦
              let key = S.payments.find-key id d w.db.payments found in
              let put = S.payments.find-write (set_network_fee fee t d) id w.db.payments in
              (set_network_fee fee t d, ground arith, ground arith)
          | inr charged ↦ (d, ground arith, charged)
        ]
      ]

  -- The fee is written where there is none.
  settle-sets :
      (id : String) (m : ℕ) (d : PaymentDoc) (w : World (Store S))
      → S.payments.find id w.db.payments ≡ some d
      → IsCalm w
      → 0 < m
      → ((p : Payment) × ((settle id (pos m) w).0 ≡ ok p))
        × (d' : PaymentDoc) × (S.payments.find id (settle id (pos m) w).1.db.payments ≡ some d')
        × (d'.network_fee_minor ≡ (if has_no_network_fee d then pos m else d.network_fee_minor))
  unfolding settle_network_fee ◌>>=◌
  settle-sets id m d w found calm positive =
      let t = w.readings 0 in
      let kept =
        S.payments.update_lem id has_no_network_fee (set_network_fee (pos m) t) w.db.payments in
      let first = calm 0 in
      let second = calm 1 in
      elim (Bool-cases (has_no_network_fee d)) [
        | inl free ↦
            let key = S.payments.find-key id d w.db.payments found in
            let put = S.payments.find-write (set_network_fee (pos m) t d) id w.db.payments in
            (
              (to_domain (set_network_fee (pos m) t d), ground arith),
              set_network_fee (pos m) t d,
              ground arith,
              ground arith,
            )
        | inr charged ↦ ((to_domain d, ground arith), d, ground arith, ground arith)
      ]

  settle-refused :
      (id : String) (fee : ℤ) (w : World (Store S))
      → leb_ℤ fee (pos 0) ≡ true
      → settle id fee w ≡ (err invalid_state, w)
  unfolding settle_network_fee ◌>>=◌
  settle-refused id fee w low = rw low refl

  module _ (decode : String → Option PaymentCreated) where
    abbrev handle : String → Action (Store S) Bool
    handle = handle_message decode settle

    abbrev answer : Result Payment × World (Store S) → Result Bool × World (Store S)
    answer (r, w) = (ok (is_settled r), w)

    handle_lem :
        (body : String) (ev : PaymentCreated) (w : World (Store S))
        → decode body ≡ some ev
        → handle body w ≡ answer (settle ev.payment_id (mock_network_fee ev.amount_minor) w)
    unfolding handle_message ◌>>=◌ attempt
    handle_lem body ev w h = ap (λ o. settle_event decode settle o w) h

    settled_inversion :
        (r : Result Payment × World (Store S)) (w' : World (Store S))
        → answer r ≡ (ok true, w')
        → (p : Payment) × (r ≡ (ok p, w'))
    settled_inversion (ok p, w1) w' h = (p, λ i. (ok p, (h i).1))
    settled_inversion (err e, w1) w' h = absurd (ground arith)

    -- After a message that was deleted, a delivery of the same message again, or of another one about
    -- the same payment, changes nothing in a store whose payments are as the first delivery left them,
    -- whatever becomes of the commands of both.
    pub handle_message-twice :
        (body again : String) (ev ev' : PaymentCreated) (w w' v : World (Store S))
        → decode body ≡ some ev
        → decode again ≡ some ev'
        → ev'.payment_id ≡ ev.payment_id
        → handle_message decode (settle_network_fee S) body w ≡ (ok true, w')
        → v.db.payments ≡ w'.db.payments
        → (handle_message decode (settle_network_fee S) again v).1.db ≡ v.db
    handle_message-twice body again ev ev' w w' v read read' same deleted kept =
        let run = settle ev.payment_id (mock_network_fee ev.amount_minor) w in
        let (p, settled) = settled_inversion run w' (sym (handle_lem body ev w read) ∙ deleted) in
        let (d, found, charged) =
          settle-charges ev.payment_id (mock_network_fee ev.amount_minor) p w w' settled in
        let here : S.payments.find ev'.payment_id v.db.payments ≡ some d =
          (rw (same, kept) found) in
        ap (λ r. r.1.db) (handle_lem again ev' v read')
        ∙ settle-charged ev'.payment_id (mock_network_fee ev'.amount_minor) d v here charged

    -- Where the server answers, the first message about a stored payment, of an amount whose product
    -- with 25 fits into an int64, is deleted, and the payment then has the fee of 20 and 25 basis points
    -- of the amount, rounded down, or the fee that it had before.
    pub handle_message-delivers :
        (body : String) (ev : PaymentCreated) (n : ℕ) (d : PaymentDoc) (w : World (Store S))
        → decode body ≡ some ev
        → ev.amount_minor ≡ pos n
        → n * 25 < 2 ^ 63
        → S.payments.find ev.payment_id w.db.payments ≡ some d
        → IsCalm w
        → let (r, w') = handle_message decode (settle_network_fee S) body w in
          (r ≡ ok true)
          × (d' : PaymentDoc) × (S.payments.find ev.payment_id w'.db.payments ≡ some d')
          × (d'.network_fee_minor
              ≡ (if has_no_network_fee d then pos (20 + n * 25 / 10000) else d.network_fee_minor))
    handle_message-delivers body ev n d w read amount fits found calm =
        let fee = ap mock_network_fee amount ∙ mock_network_fee-pos n fits in
        let run = handle_lem body ev w read ∙ ap (λ a. answer (settle ev.payment_id a w)) fee in
        let ((p, settled), d', stored, charged) =
          settle-sets ev.payment_id (20 + n * 25 / 10000) d w found calm (omega arith) in
        (
          ap (λ r. r.0) run ∙ ap (λ r. ok (is_settled r)) settled,
          d',
          ap (λ r. S.payments.find ev.payment_id r.1.db.payments) run ∙ stored,
          charged,
        )

    -- An amount whose product with 25 lies from 2^63 to below 2^64 - 200000 gives a fee that is not
    -- positive: the store refuses it and changes nothing, and the message stays in the queue.
    pub handle_message-overflow :
        (body : String) (ev : PaymentCreated) (n : ℕ) (w : World (Store S))
        → decode body ≡ some ev
        → ev.amount_minor ≡ pos n
        → 2 ^ 63 ≤ n * 25
        → n * 25 < 2 ^ 64 - 200000
        → handle_message decode (settle_network_fee S) body w ≡ (ok false, w)
    handle_message-overflow body ev n w read amount lo hi =
        let low =
          ap (λ a. leb_ℤ (mock_network_fee a) (pos 0)) amount ∙ mock_network_fee-high n lo hi in
        handle_lem body ev w read
        ∙ ap answer (settle-refused ev.payment_id (mock_network_fee ev.amount_minor) w low)
