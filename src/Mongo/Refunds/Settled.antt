-- ===== src/Mongo/Refunds/Settled.antt =====
-- SettleRefund against the contract, with a server that answers.
use mathlib.Core.Path.{subst}
use gripe.Common.{
  String, ◌≡◌, sym, ap, ◌∙◌, ◌==◌, true, false, some, none, Option, Bool-cases, if◌then◌else◌,
  eq_iff, inl, inr, Option-cases, arith,
}
use gripe.Domain.{Time, Refund, created, refund_status_eq}
use gripe.Exec.{World, err, not_found, invalid_state, IsCalm, ◌>>=◌}
use gripe.Contract.SettleRefund
use gripe.Contract.SettleRefund.{Refunds, AgreesSettled, set_refund}
use gripe.Mongo.{Server, Store, PaymentDoc, RefundElem, refund_to_domain}
use gripe.Mongo.View.{view, payment_view-write}
use gripe.Mongo.Refunds.{
  any_refund, has_id, is_open, settle_element, set_refund_settled, locate, settle_refund,
}
use gripe.Mongo.Refunds.Unique.{HasUniqueRefunds, moved_in, find_where-settled}
use gripe.Mongo.Refunds.Elements.{
  settled_elem, locate-some, any-locate, any_open-any, any_open-locate, locate-settle_element,
  locate-settle_other,
}
use gripe.Mongo.Refunds.Debit.{settle_refund-debits}

abbrev elem_view : PaymentDoc → Option RefundElem → Option Refund
elem_view d none = none
elem_view d (some e) = some (refund_to_domain e d)

abbrev seen_in : String → Option PaymentDoc → Option Refund
seen_in k none = none
seen_in k (some d) = elem_view d (locate k d.refunds)

-- A refund with the merchant and the currency of the payment that it is embedded in.
abbrev pub refunds_view : (S : Server) → Store S → Refunds
refunds_view S st k =
    seen_in k (S.payments.find_where (λ p. any_refund (has_id k) p.refunds) st.payments)

module _ (S : Server) (id : String) (w : World (Store S)) (calm : IsCalm w)
    (unique : HasUniqueRefunds S w.db.payments) where
  -- No open refund, as no payment has the refund.
  nowhere-closed :
      S.payments.find_where (λ p. any_refund (has_id id) p.refunds) w.db.payments ≡ none
      → S.payments.find_where (λ p. any_refund (is_open id) p.refunds) w.db.payments ≡ none
  nowhere-closed nowhere =
      let s = w.db.payments in
      let q = λ (p : PaymentDoc). any_refund (is_open id) p.refunds in
      elim (Option-cases (S.payments.find_where q s)) [
        | inl unopened ↦ unopened
        | inr (y, somewhere) ↦ absurd (
            let (has, there) = S.payments.find_where-some q y s somewhere in
            let yes = any_open-any id y.refunds has in
            let no =
              S.payments.find_where-none (λ p. any_refund (has_id id) p.refunds) y.id y s nowhere
                there in
            ground arith)
      ]

  module _ (d : PaymentDoc) (e : RefundElem)
      (owner : S.payments.find_where (λ p. any_refund (has_id id) p.refunds) w.db.payments ≡ some d)
      (located : locate id d.refunds ≡ some e) where
    there : S.payments.find d.id w.db.payments ≡ some d
    there =
        (S.payments.find_where-some (λ p. any_refund (has_id id) p.refunds) d w.db.payments owner).1

    -- A search for an open refund with the id finds the same payment, or none.
    owner-open :
        S.payments.find_where (λ p. any_refund (is_open id) p.refunds) w.db.payments
        ≡ (if refund_status_eq e.status created then some d else none)
    owner-open =
        let s = w.db.payments in
        let q = λ (p : PaymentDoc). any_refund (is_open id) p.refunds in
        let (has, found) =
          S.payments.find_where-some (λ p. any_refund (has_id id) p.refunds) d s owner in
        let decided = any_open-locate id e d.refunds (unique.distinct d.id d found) located in
        elim (Option-cases (S.payments.find_where q s)) [
          | inl nowhere ↦
              let no = S.payments.find_where-none q d.id d s nowhere found in ground arith
          | inr (y, somewhere) ↦
              let (opened, found') = S.payments.find_where-some q y s somewhere in
              let same =
                unique.one_payment y.id y d.id d id found' found (any_open-any id y.refunds opened)
                  has in
              ground arith
        ]

    elem-named : (e.id == "") ≡ false
    elem-named =
        let (has, same) = any-locate id e d.refunds located in
        let no = unique.named d.id d there in ground (arith, eq_iff e.id id, eq_iff e.id "")

    settle_refund-closed :
        refund_status_eq e.status created ≡ false
        → ((settle_refund S id w).0 ≡ err invalid_state) × ((settle_refund S id w).1.db ≡ w.db)
    unfolding settle_refund ◌>>=◌
    settle_refund-closed closed =
        let c0 = calm 0 in
        let c1 = calm 1 in
        let opened = owner-open in
        let t = w.readings 0 in
        let flipped =
          S.payments.update_where_lem (λ p. any_refund (is_open id) p.refunds)
            (set_refund_settled id t) w.db.payments in
        (ground arith, ground arith)

    settle_refund-payments :
        refund_status_eq e.status created ≡ true
        → (settle_refund S id w).1.db.payments
          ≡ S.payments.write (set_refund_settled id (w.readings 0) d) w.db.payments
    unfolding settle_refund ◌>>=◌
    settle_refund-payments is =
        let c0 = calm 0 in
        let c1 = calm 1 in
        let t = w.readings 0 in
        let opened = owner-open in
        let after =
          locate-settle_element id e d.refunds (unique.distinct d.id d there) located is in
        let named = elem-named in
        let flipped =
          S.payments.update_where_lem (λ p. any_refund (is_open id) p.refunds)
            (set_refund_settled id t) w.db.payments in
        ground arith

    -- The refunds that can be seen once the refund is settled.
    refunds-settled :
        (k : String) (t : Time)
        → refund_status_eq e.status created ≡ true
        → seen_in k (
            moved_in S id t d
              (S.payments.find_where (λ p. any_refund (has_id k) p.refunds) w.db.payments))
          ≡ set_refund (refund_to_domain (settled_elem e) d) (refunds_view S w.db) k
    refunds-settled k t is =
        let s = w.db.payments in
        let q = λ (p : PaymentDoc). any_refund (has_id k) p.refunds in
        let (has, same) = any-locate id e d.refunds located in
        let after =
          locate-settle_element id e d.refunds (unique.distinct d.id d there) located is in
        let found = there in
        elim (Option-cases (S.payments.find_where q s)) [
          | inl nowhere ↦
              let no = S.payments.find_where-none q d.id d s nowhere found in
              ground (arith, eq_iff e.id id, eq_iff e.id k)
          | inr (y, somewhere) ↦
              let (has', found') = S.payments.find_where-some q y s somewhere in
              elim (Bool-cases (e.id == k)) [
                | inl this ↦
                    let at : id ≡ k = sym ((eq_iff e.id id).0 same) ∙ (eq_iff e.id k).0 this in
                    let has_k = subst (λ i. any_refund (has_id i) d.refunds ≡ true) at has in
                    let after_k =
                      subst (λ i. locate i (settle_element id d.refunds) ≡ some (settled_elem e)) at
                        after in
                    let one = unique.one_payment y.id y d.id d k found' found has' has_k in
                    ground (arith, eq_iff d.id y.id)
                | inr other ↦
                    let kept =
                      locate-settle_other id k d.refunds
                        (ground (arith, eq_iff e.id id, eq_iff e.id k, eq_iff id k)) in
                    elim (Option-cases (locate k d.refunds)) [
                      | inl gone ↦ ground (arith, eq_iff d.id y.id)
                      | inr (x, here) ↦ ground (arith, eq_iff d.id y.id)
                    ]
              ]
        ]

    settle_refund-open :
        refund_status_eq e.status created ≡ true
        → let (r, w') = settle_refund S id w in
          AgreesSettled r
            (refunds_view S w'.db)
            (view S w'.db)
            (SettleRefund.settle_refund id (refunds_view S w.db) (view S w.db))
    settle_refund-open is =
        let t = w.readings 0 in
        let after =
          locate-settle_element id e d.refunds (unique.distinct d.id d there) located is in
        let opened = owner-open in
        let (answer, ledgers) =
          settle_refund-debits S id w calm d (settled_elem e) (ground arith) after elem-named in
        let payments = settle_refund-payments is in
        let moved_where =
          λ (k : String). find_where-settled S id t d w.db.payments unique there k in
        let seen = λ (k : String). refunds-settled k t is in
        let found = there in
        (
          ground arith,
          λ k.
              let promised : (SettleRefund.settle_refund id (refunds_view S w.db) (view S w.db)).1 k
                  ≡ set_refund (refund_to_domain (settled_elem e) d) (refunds_view S w.db) k =
                ground arith in
              ap
                (λ (s : S.payments.State).
                  seen_in k (S.payments.find_where (λ p. any_refund (has_id k) p.refunds) s))
                payments
              ∙ (ap (seen_in k) (moved_where k) ∙ (seen k ∙ sym promised)),
          record {
            payments = λ k. ground (
              arith,
              payment_view-write S (set_refund_settled id t d) k w.db.payments,
              eq_iff d.id k,
            );
            ledgers = λ m c. ground (arith, ledgers m c);
          },
        )

  settle_refund-missing :
      S.payments.find_where (λ p. any_refund (has_id id) p.refunds) w.db.payments ≡ none
      → ((settle_refund S id w).0 ≡ err not_found) × ((settle_refund S id w).1.db ≡ w.db)
  unfolding settle_refund ◌>>=◌
  settle_refund-missing nowhere =
      let c0 = calm 0 in
      let c1 = calm 1 in
      let closed = nowhere-closed nowhere in
      let t = w.readings 0 in
      let flipped =
        S.payments.update_where_lem (λ p. any_refund (is_open id) p.refunds)
          (set_refund_settled id t) w.db.payments in
      (ground arith, ground arith)

  -- While the server answers, and no two refunds have one id, whatever payments they are embedded in,
  -- nor an empty one, SettleRefund does what the contract says: an open refund becomes settled, its
  -- merchant's ledger in its currency falls by the amount less the fee on it and by the fee, and nothing
  -- else changes; a missing refund is ErrNotFound, a settled one ErrInvalidState, and then nothing
  -- changes.
  pub settle_refund-AgreesSettled_mongo :
      let (r, w') = settle_refund S id w in
      AgreesSettled r
        (refunds_view S w'.db)
        (view S w'.db)
        (SettleRefund.settle_refund id (refunds_view S w.db) (view S w.db))
  settle_refund-AgreesSettled_mongo =
      let q = λ (p : PaymentDoc). any_refund (has_id id) p.refunds in
      elim (Option-cases (S.payments.find_where q w.db.payments)) [
        | inl nowhere ↦
            let (answer, same) = settle_refund-missing nowhere in
            (
              ground arith,
              λ k. ground arith,
              record { payments = λ k. ground arith; ledgers = λ m c. ground arith },
            )
        | inr (d, owner) ↦
            let (has, there) = S.payments.find_where-some q d w.db.payments owner in
            let (e, located) = locate-some id d.refunds has in
            elim (Bool-cases (refund_status_eq e.status created)) [
              | inl is ↦ settle_refund-open d e owner located is
              | inr closed ↦
                  let (answer, same) = settle_refund-closed d e owner located closed in
                  (
                    ground arith,
                    λ k. ground arith,
                    record { payments = λ k. ground arith; ledgers = λ m c. ground arith },
                  )
            ]
      ]
