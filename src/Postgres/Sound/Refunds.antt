-- ===== src/Postgres/Sound/Refunds.antt =====
-- store/postgres/store.go: RefundPayment and SettleRefund, and the links between the tables.
use mathlib.Core.Path.{subst}
use gripe.Common.{String, ◌≡◌, refl, sym, true, false, if◌then◌else◌, Option, none, some, arith}
use gripe.Int.{ℤ, pos, eqb_ℤ, leb_ℤ}
use gripe.Domain.{Time}
use gripe.Storage.{updated, inserted}
use gripe.Exec.{raise, not_found, invalid_state, over_refund}
use gripe.Exec.Triple.{
  Gives-if, Triple, Triple-pure, Triple-raise, Triple-bind, Triple-if, Triple-if_found, Triple-now,
  Triple-new_id,
}
use gripe.Postgres.{Server, Store, Tables, PaymentRow, RefundRow, exists}
use gripe.Postgres.Refunds.{
  sum_fits, bump_refunded, can_refund, is_refundable, add_refunded, set_refunded, new_refund,
  is_open, set_settled, insert_refund, with_refunds, join_payment, parent_of, flip_refund,
  select_refund, flip_if_full, refund_payment, settle_refund,
}
use gripe.Postgres.Sound.{IsSound, Within, KeepsActors, write_refund-IsSound}
use gripe.Postgres.Sound.Commands.{
  TxGives, update_payment-TxGives, linked_tx-Triple, update_tx-Triple, pool_exec-Triple,
  begin-Triple, commit-Triple,
}
use gripe.Postgres.Sound.Methods.{select-Triple, credit-Triple}

added_keeps : (amount : ℤ) (t : Time) → KeepsActors (add_refunded amount t)
added_keeps amount t = record {
  same_merchant = λ r. refl;
  same_customer = λ r. refl;
  fee_not_zero = λ r fee h e. h fee e;
}

refunded_keeps : (t : Time) → KeepsActors (set_refunded t)
refunded_keeps t = record {
  same_merchant = λ r. refl;
  same_customer = λ r. refl;
  fee_not_zero = λ r fee h e. h fee e;
}

module _ (S : Server) where
  inserted_refund-TxGives :
      (r : RefundRow) (st : Store S) (tx : Tables S) (o : Option S.refunds.State)
      → o ≡ inserted (S.refunds.write r tx.refunds) (S.refunds.find r.id tx.refunds)
      → exists (S.payments.find r.payment_id tx.payments) ≡ true
      → Within S tx st
      → TxGives S st
          (λ _ _. Unit)
          (elim o [ none ↦ none | some s ↦ some (tt, record tx { refunds = s }) ])
  inserted_refund-TxGives r st tx none e there h = tt
  inserted_refund-TxGives r st tx (some s) e there h =
      let same : s ≡ S.refunds.write r tx.refunds = ground arith in
      (
        subst (λ s. Within S (record tx { refunds = s }) st) (sym same)
            (write_refund-IsSound S r (record st { tables = tx }) there h),
        tt,
      )

  insert_refund-TxGives :
      (r : RefundRow) (st : Store S) (tx : Tables S)
      → Within S tx st
      → TxGives S st (λ _ _. Unit) (insert_refund S r tx)
  insert_refund-TxGives r st tx h =
      Gives-if (λ a t. Within S t st × Unit) (exists (S.payments.find r.payment_id tx.payments)) _
        λ there.
          inserted_refund-TxGives r st tx (S.refunds.insert r tx.refunds)
            (S.refunds.insert_lem r tx.refunds) there h

  flip_if_full-Triple :
      (id : String) (r : PaymentRow) (t : Time) (tx : Tables S)
      → Triple (IsSound S) (Within S tx) (flip_if_full S id r t tx) (λ x. Within S x.1)
  unfolding flip_if_full
  flip_if_full-Triple id r t tx =
      Triple-if (eqb_ℤ r.refunded_minor r.amount_minor) _ _
        (λ _.
          Triple-bind _ _ (update_tx-Triple S id (λ _. true) (set_refunded t) tx (refunded_keeps t))
            λ flipped. Triple-pure (tt, flipped.1) (λ st i h. h))
        (λ _. Triple-pure (tt, tx) (λ st i h. h))

  bump_refunded-TxGives :
      (id : String) (amount : ℤ) (t : Time) (st : Store S) (tx : Tables S)
      → Within S tx st
      → TxGives S st (λ _ _. Unit) (bump_refunded S id amount t tx)
  bump_refunded-TxGives id amount t st tx h =
      Gives-if (λ a t. Within S t st × Unit) (sum_fits amount (S.payments.find id tx.payments)) _
        λ fits.
          update_payment-TxGives S id (can_refund amount) (add_refunded amount t)
            (added_keeps amount t) (record st { tables = tx }) h

  pub refund_payment-Triple :
      (id : String) (amount : ℤ)
      → Triple (IsSound S) (λ _. Unit) (refund_payment S id amount) (λ _ _. Unit)
  unfolding refund_payment
  refund_payment-Triple id amount =
      Triple-if (leb_ℤ amount (pos 0)) (raise invalid_state) _ (λ _. Triple-raise invalid_state)
        λ _. Triple-bind _ _ Triple-now λ t. Triple-bind _ _ (begin-Triple S) λ tx.
          Triple-bind _ _
            (linked_tx-Triple S (bump_refunded S id amount t) tx
              λ st h. bump_refunded-TxGives id amount t st tx h)
            λ bumped.
              Triple-if_found bumped.0 _ _
                (λ _. Triple-bind _ _ (select-Triple S id) λ current.
                  Triple-if (is_refundable current.status) (raise over_refund) (raise invalid_state)
                    (λ _. Triple-raise over_refund) (λ _. Triple-raise invalid_state))
                λ p e. Triple-bind _ _ (flip_if_full-Triple id p t bumped.1) λ flipped.
                  Triple-bind _ _ (Triple-new_id "re") λ new.
                    Triple-bind _ _
                      (linked_tx-Triple S (insert_refund S (new_refund new id amount t)) flipped.1
                        λ st h. insert_refund-TxGives (new_refund new id amount t) st flipped.1 h)
                      λ inserted.
                        Triple-bind _ _ (commit-Triple S inserted.1)
                          λ _. Triple-pure _ (λ st i h. tt)

  flipped_refund-Within :
      (id : String) (st : Store S) (tx : Tables S) (f : RefundRow) (p : Option PaymentRow)
      → S.refunds.find id tx.refunds ≡ some f
      → Within S tx st
      → Within S (join_payment S id tx p).1 st
  flipped_refund-Within id st tx f none found h = h
  flipped_refund-Within id st tx f (some p) found h =
      rw (S.refunds.update_lem id is_open set_settled tx.refunds, found)
        (elim (is_open f)
          as (λ b.
            Within S
              (with_refunds S tx p (
                updated set_settled (λ r. S.refunds.write r tx.refunds)
                  (if b then some f else none))).1
              st) [
                | true ↦
                    write_refund-IsSound S (set_settled f) (record st { tables = tx })
                      (h.payment_of id f found) h
                | false ↦ h
              ])

  flip_refund-Within :
      (id : String) (st : Store S) (tx : Tables S) (f : Option RefundRow)
      → S.refunds.find id tx.refunds ≡ f
      → Within S tx st
      → Within S (join_payment S id tx (parent_of S tx f)).1 st
  flip_refund-Within id st tx none found h = h
  flip_refund-Within id st tx (some f) found h =
      flipped_refund-Within id st tx f (S.payments.find f.payment_id tx.payments) found h

  pub settle_refund-Triple :
      (id : String) → Triple (IsSound S) (λ _. Unit) (settle_refund S id) (λ _ _. Unit)
  unfolding settle_refund
  settle_refund-Triple id = Triple-bind _ _ (begin-Triple S) λ tx.
      Triple-bind _ _
        (linked_tx-Triple S (flip_refund S id) tx
          λ st h. (flip_refund-Within id st tx (S.refunds.find id tx.refunds) refl h, tt))
        λ flipped.
          Triple-if_found flipped.0 _ _
            (λ _.
              Triple-bind _ _
                (pool_exec-Triple S (λ _ _. Unit) (select_refund S id) λ st i. (i, tt))
                λ probed.
                  Triple-if_found probed _ _ (λ _. Triple-raise not_found)
                    λ r e. Triple-raise invalid_state)
            λ found e. Triple-bind _ _ (credit-Triple S _ _ _ _ flipped.1) λ credited.
              Triple-bind _ _ (commit-Triple S credited.1) λ _. Triple-pure _ (λ st i h. tt)
