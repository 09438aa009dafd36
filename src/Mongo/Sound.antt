-- ===== src/Mongo/Sound.antt =====
-- What holds of every stored payment, after any methods and whatever becomes of their commands.
use gripe.Common.{
  String, ◌≡◌, refl, Bool, true, Option, none, some, List, [], ◌∷◌, ◌++◌, ◌==◌, arith, Bool-cases,
  inl, inr,
}
use mathlib.Core.Path.{subst}
use gripe.Int.{ℤ, pos, ◌+ℤ◌, ◌≤ℤ◌, ◌<ℤ◌}
use gripe.Int.Laws.{int_laws}
use gripe.Domain.{Currency, refunded}
use gripe.Storage.{updated, matching}
use gripe.Exec.{exec, now, Command}
use gripe.Exec.Stable.{Stable, Stable-exec, Stable-bind, Stable-now}
use gripe.Mongo.{
  Server, Store, PaymentDoc, RefundElem, with_payments, find_one_and_update, find_payment,
  find_payment_where, find_one_and_update_where, apply_balance_delta,
}

abbrev pub total : List RefundElem → ℤ
total [] = pos 0
total (r ∷ rs) = r.amount_minor +ℤ total rs

abbrev pub AllPositive : List RefundElem → Type 0
AllPositive [] = Unit
AllPositive (r ∷ rs) = (pos 0 <ℤ r.amount_minor) × AllPositive rs

pub total-append : (xs ys : List RefundElem) → total (xs ++ ys) ≡ total xs +ℤ total ys
total-append [] ys = omega int_laws
total-append (r ∷ rs) ys = rw (total-append rs ys) (omega int_laws)

pub AllPositive-append :
    (xs ys : List RefundElem) → AllPositive xs → AllPositive ys → AllPositive (xs ++ ys)
AllPositive-append [] ys h k = k
AllPositive-append (r ∷ rs) ys h k = (h.0, AllPositive-append rs ys h.1 k)

-- The amount is positive, the refunds are positive and their sum is the refunded amount, which does
-- not pass the amount; a payment is in status `refunded` exactly if the two are equal, and before
-- it is captured or settled it has no refunds.
pub record IsSound (d : PaymentDoc) : Type 0 where
  pub positive : pos 0 <ℤ d.amount_minor
  pub refunds_positive : AllPositive d.refunds
  pub refunds_counted : total d.refunds ≡ d.refunded_minor
  pub within_amount : d.refunded_minor ≤ℤ d.amount_minor
  pub refunded_if_full : d.refunded_minor ≡ d.amount_minor → d.status ≡ refunded
  pub full_if_refunded : d.status ≡ refunded → d.refunded_minor ≡ d.amount_minor

pub record AllSound (S : Server) (st : Store S) : Type 0 where
  pub at : (k : String) (d : PaymentDoc) → S.payments.find k st.payments ≡ some d → IsSound d

module _ (S : Server) where
  pub write-AllSound :
      (d : PaymentDoc) (st : Store S)
      → IsSound d
      → AllSound S st
      → AllSound S (record st { payments = S.payments.write d st.payments })
  write-AllSound d st sound h = record {
    at = λ k e found. elim (Bool-cases (d.id == k)) [
      | inl same ↦
          subst IsSound {x = d} {y = e} (ground (arith, S.payments.find-write d k st.payments))
            sound
      | inr other ↦ h.at k e (ground (arith, S.payments.find-write d k st.payments))
    ];
  }

  pub updated-AllSound :
      (q : PaymentDoc → Bool) (f : PaymentDoc → PaymentDoc)
      → ((d : PaymentDoc) → q d ≡ true → IsSound d → IsSound (f d))
      → (o : Option PaymentDoc) (st st' : Store S) (a : Option PaymentDoc)
      → ((d : PaymentDoc) → o ≡ some d → (q d ≡ true) × IsSound d)
      → AllSound S st
      → with_payments S st (updated f (λ d. S.payments.write d st.payments) o) ≡ (a, st')
      → AllSound S st'
  updated-AllSound q f keep none st st' a src h e =
      subst (AllSound S) {x = st} {y = st'} (ground arith) h
  updated-AllSound q f keep (some d) st st' a src h e =
      subst (AllSound S) {x = record st { payments = S.payments.write (f d) st.payments }} {y = st'}
        (ground arith) (write-AllSound (f d) st (keep d (src d refl).0 (src d refl).1) h)

  -- An update that keeps each document that its filter admits sound keeps the store sound.
  pub find_one_and_update-AllSound :
      (id : String) (q : PaymentDoc → Bool) (f : PaymentDoc → PaymentDoc)
      → ((d : PaymentDoc) → q d ≡ true → IsSound d → IsSound (f d))
      → Stable (AllSound S) (exec (find_one_and_update S id q f))
  find_one_and_update-AllSound id q f keep =
      Stable-exec (find_one_and_update S id q f) λ st h a st' e.
        updated-AllSound q f keep (matching q (S.payments.find id st.payments)) st st' a
          (λ d m. (ground arith, h.at id d (ground arith))) h
          (ground (arith, S.payments.update_lem id q f st.payments))

  pub find_one_and_update_where-AllSound :
      (q : PaymentDoc → Bool) (f : PaymentDoc → PaymentDoc)
      → ((d : PaymentDoc) → q d ≡ true → IsSound d → IsSound (f d))
      → Stable (AllSound S) (exec (find_one_and_update_where S q f))
  find_one_and_update_where-AllSound q f keep =
      Stable-exec (find_one_and_update_where S q f) λ st h a st' e.
        updated-AllSound q f keep (S.payments.find_where q st.payments) st st' a
          (λ d m.
            let found = S.payments.find_where-some q d st.payments m in
            (found.0, h.at d.id d found.1))
          h (ground (arith, S.payments.update_where_lem q f st.payments))

  -- A command that writes no payment.
  pub Stable-no_payment :
      {A : Type 0} (c : Command (Store S) A)
      → ((st : Store S) (a : A) (st' : Store S) → c st ≡ some (a, st') → st'.payments ≡ st.payments)
      → Stable (AllSound S) (exec c)
  Stable-no_payment c same =
      Stable-exec c
        λ st h a st' e. record { at = λ k d found. h.at k d (rw (same st a st' e) at found) }

  pub find_payment-AllSound : (id : String) → Stable (AllSound S) (exec (find_payment S id))
  find_payment-AllSound id = Stable-no_payment (find_payment S id) λ st a st' e. ground arith

  pub find_payment_where-AllSound :
      (q : PaymentDoc → Bool) → Stable (AllSound S) (exec (find_payment_where S q))
  find_payment_where-AllSound q =
      Stable-no_payment (find_payment_where S q) λ st a st' e. ground arith

  pub apply_balance_delta-AllSound :
      (m : String) (c : Currency) (x y : ℤ) → Stable (AllSound S) (apply_balance_delta S m c x y)
  unfolding apply_balance_delta
  apply_balance_delta-AllSound m c x y =
      Stable-bind now _ Stable-now λ t. Stable-no_payment _ λ st a st' e. ground arith
