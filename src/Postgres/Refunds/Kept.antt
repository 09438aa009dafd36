-- ===== src/Postgres/Refunds/Kept.antt =====
-- RefundPayment against the contract, with a server that answers.
use gripe.Common.{
  String, ◌≡◌, ap, sym, ◌∙◌, ◌==◌, true, false, some, none, Bool-cases, if◌then◌else◌, eq_iff, inl,
  inr, Option-cases, arith,
}
use gripe.Int.{ℤ, pos, ◌+ℤ◌, eqb_ℤ, leb_ℤ}
use gripe.Domain.{Time}
use gripe.Exec.{World, ok, IsCalm, ◌>>=◌, new_refund_id}
use gripe.Contract
use gripe.Contract.{AgreesRefund}
use gripe.Postgres.{Server, Store, PaymentRow}
use gripe.Postgres.View.{view}
use gripe.Postgres.Refunds.{
  sum_fits, can_refund, add_refunded, set_refunded, new_refund, to_refund, flip_if_full,
  refund_payment,
}

module _ (S : Server) where
  -- The payment with the refund counted, after the second UPDATE.
  abbrev flipped_row : ℤ → Time → PaymentRow → PaymentRow
  flipped_row amount t r =
      if eqb_ℤ (r.refunded_minor +ℤ amount) r.amount_minor
      then set_refunded t (add_refunded amount t r)
      else add_refunded amount t r

  -- The payments after both UPDATEs.
  abbrev flipped_payments : ℤ → Time → PaymentRow → S.payments.State → S.payments.State
  flipped_payments amount t r s =
      let bumped = S.payments.write (add_refunded amount t r) s in
      if eqb_ℤ (r.refunded_minor +ℤ amount) r.amount_minor
      then S.payments.write (set_refunded t (add_refunded amount t r)) bumped
      else bumped

  payment-flipped :
      (amount : ℤ) (t : Time) (r : PaymentRow) (k : String) (s : S.payments.State)
      → S.payments.find k (flipped_payments amount t r s)
        ≡ (if r.id == k then some (flipped_row amount t r) else S.payments.find k s)
  payment-flipped amount t r k s = ground (
    arith,
    S.payments.find-write (add_refunded amount t r) k s,
    S.payments.find-write (set_refunded t (add_refunded amount t r)) k
        (S.payments.write (add_refunded amount t r) s),
  )

module _ (S : Server) (id : String) (w : World (Store S)) (calm : IsCalm w) where
  refund_payment-fits :
      (amount : ℤ) (r : PaymentRow)
      → S.refunds.find (new_refund_id w) w.db.tables.refunds ≡ none
      → S.payments.find id w.db.tables.payments ≡ some r
      → sum_fits amount (some r) ≡ true
      → leb_ℤ amount (pos 0) ≡ false
      → can_refund amount r ≡ true
      → let (result, w') = refund_payment S id amount w in
        let t = w.readings 0 in
        (result ≡ ok (to_refund (new_refund (new_refund_id w) id amount t) r))
        × (w'.db.tables.payments ≡ flipped_payments S amount t r w.db.tables.payments)
        × (w'.db.tables.balances ≡ w.db.tables.balances)
  unfolding refund_payment flip_if_full ◌>>=◌
  refund_payment-fits amount r fresh e sum positive fits =
      let t = w.readings 0 in
      let s = w.db.tables.payments in
      let new = new_refund (new_refund_id w) id amount t in
      let bumped = S.payments.update_lem id (can_refund amount) (add_refunded amount t) s in
      let key = S.payments.find-key id r s e in
      let same = S.payments.find-write (add_refunded amount t r) id s in
      let full =
        S.payments.update_lem id (λ _. true) (set_refunded t)
          (S.payments.write (add_refunded amount t r) s) in
      let there = payment-flipped S amount t r id s in
      let put = S.refunds.insert_lem new w.db.tables.refunds in
      let c0 = calm 0 in
      let c1 = calm 1 in
      let c2 = calm 2 in
      let c3 = calm 3 in
      let c4 = calm 4 in
      elim (Bool-cases (eqb_ℤ (r.refunded_minor +ℤ amount) r.amount_minor)) [
        | inl all ↦ ground arith
        | inr part ↦ ground arith
      ]

  -- The refusals, which change nothing.
  refund_payment-refused :
      (amount : ℤ)
      → sum_fits amount (S.payments.find id w.db.tables.payments) ≡ true
      → ((r : PaymentRow)
          → S.payments.find id w.db.tables.payments ≡ some r
          → can_refund amount r ≡ false)
      → let (r, w') = refund_payment S id amount w in
        let spec =
          Contract.refund (new_refund_id w) (w.readings 0) amount id (view S w.db.tables) in
        (r ≡ spec.0) × (spec.1 ≡ view S w.db.tables) × (w'.db ≡ w.db)
  unfolding refund_payment ◌>>=◌
  refund_payment-refused amount sum unfit =
      let t = w.readings 0 in
      let s = w.db.tables.payments in
      let bumped = S.payments.update_lem id (can_refund amount) (add_refunded amount t) s in
      let c0 = calm 0 in
      let c1 = calm 1 in
      let c2 = calm 2 in
      elim (Option-cases (S.payments.find id s)) [
        | inl missing ↦ ground arith
        | inr (r, e) ↦ let no = unfit r e in ground arith
      ]

  refund_payment-AgreesRefund_found :
      (amount : ℤ) (r : PaymentRow)
      → S.refunds.find (new_refund_id w) w.db.tables.refunds ≡ none
      → S.payments.find id w.db.tables.payments ≡ some r
      → sum_fits amount (some r) ≡ true
      → leb_ℤ amount (pos 0) ≡ false
      → can_refund amount r ≡ true
      → let (result, w') = refund_payment S id amount w in
        AgreesRefund result
          (view S w'.db.tables)
          (Contract.refund (new_refund_id w) (w.readings 0) amount id (view S w.db.tables))
  refund_payment-AgreesRefund_found amount r fresh e sum positive fits =
      let (answer, payments, balances) = refund_payment-fits amount r fresh e sum positive fits in
      let key = S.payments.find-key id r w.db.tables.payments e in
      let same = eq_iff r.id id in
      (
        ground arith,
        record {
          payments =
              λ k. ground (arith, payment-flipped S amount (w.readings 0) r k w.db.tables.payments);
          ledgers = λ m c. ground arith;
        },
      )

  kept_view :
      (amount : ℤ)
      → sum_fits amount (S.payments.find id w.db.tables.payments) ≡ true
      → ((r : PaymentRow)
          → S.payments.find id w.db.tables.payments ≡ some r
          → can_refund amount r ≡ false)
      → let (result, w') = refund_payment S id amount w in
        AgreesRefund result
          (view S w'.db.tables)
          (Contract.refund (new_refund_id w) (w.readings 0) amount id (view S w.db.tables))
  kept_view amount sum unfit =
      let (answer, same_view, same) = refund_payment-refused amount sum unfit in
      (answer, record { payments = λ k. ground arith; ledgers = λ m c. ground arith })

  refund_payment-bad_amount :
      (amount : ℤ)
      → leb_ℤ amount (pos 0) ≡ true
      → let (result, w') = refund_payment S id amount w in
        AgreesRefund result
          (view S w'.db.tables)
          (Contract.refund (new_refund_id w) (w.readings 0) amount id (view S w.db.tables))
  unfolding refund_payment ◌>>=◌
  refund_payment-bad_amount amount bad =
      (ground arith, record { payments = λ k. ground arith; ledgers = λ m c. ground arith })

  -- While the server answers, the new refund's id is free, and the amount refunded so far and the new
  -- amount add up to an int64, RefundPayment does what the contract says: a refund of a positive amount that fits in what is left of a captured or settled payment
  -- is created with the new id, the payment's refunded amount rises by it, the payment becomes
  -- `refunded` exactly if nothing is left, and no other payment and no balance changes; an amount
  -- that is not positive is ErrInvalidState, a missing payment ErrNotFound, a payment in another
  -- state ErrInvalidState, an amount that does not fit ErrOverRefund, and then nothing changes.
  pub refund_payment-AgreesRefund_postgres :
      (amount : ℤ)
      → S.refunds.find (new_refund_id w) w.db.tables.refunds ≡ none
      → sum_fits amount (S.payments.find id w.db.tables.payments) ≡ true
      → let (r, w') = refund_payment S id amount w in
        AgreesRefund r
          (view S w'.db.tables)
          (Contract.refund (new_refund_id w) (w.readings 0) amount id (view S w.db.tables))
  refund_payment-AgreesRefund_postgres amount fresh sum = elim (Bool-cases (leb_ℤ amount (pos 0))) [
    | inl bad ↦ refund_payment-bad_amount amount bad
    | inr positive ↦ elim (Option-cases (S.payments.find id w.db.tables.payments)) [
      | inl missing ↦ kept_view amount sum λ r e. absurd (ground arith)
      | inr (r, e) ↦ elim (Bool-cases (can_refund amount r)) [
        | inl fits ↦
            refund_payment-AgreesRefund_found amount r fresh e (ap (sum_fits amount) (sym e) ∙ sum)
              positive fits
        | inr unfit ↦ kept_view amount sum λ r' e'. ground arith
      ]
    ]
  ]
