-- ===== src/Mongo/Create/Sound.antt =====
-- CreatePayment and the soundness of the stored payments.
use mathlib.Core.Path.{subst}
use gripe.Common.{String, ◌≡◌, false, some, arith}
use gripe.Int.{ℤ}
use gripe.Domain.{Time, PaymentMethod, refunded, CreatePaymentInput}
use gripe.Exec.Stable.{Stable, Stable-exec, stable_rules}
use gripe.Exec.{exec}
use gripe.Mongo.{Server, Store, PaymentDoc}
use gripe.Mongo.Sound.{IsSound, AllSound, write-AllSound, Stable-no_payment}
use gripe.Mongo.Create.{
  initial_status, refuses, new_payment, upsert_merchant, upsert_customer, mark_seen, onboard_actors,
  insert_payment, create_payment,
}

initial_status-ne-refunded : (m : PaymentMethod) (a : ℤ) → initial_status m a ≡ refunded → ⊥
unfolding initial_status
initial_status-ne-refunded m a h = ground arith

new_payment-IsSound :
    (id : String) (t : Time) (input : CreatePaymentInput)
    → refuses input ≡ false
    → IsSound (new_payment id t input)
unfolding refuses
new_payment-IsSound id t input h = record {
  positive = ground arith;
  refunds_positive = tt;
  refunds_counted = ground arith;
  within_amount = ground arith;
  refunded_if_full = λ e. ground arith;
  full_if_refunded = λ e. absurd (initial_status-ne-refunded input.method input.amount_minor e);
}

module _ (S : Server) where
  inserted-AllSound :
      (d : PaymentDoc) (st st' : Store S)
      → IsSound d
      → AllSound S st
      → insert_payment S d st ≡ some (tt, st')
      → AllSound S st'
  inserted-AllSound d st st' sound h e =
      subst (AllSound S) {x = record st { payments = S.payments.write d st.payments }} {y = st'}
        (ground (arith, S.payments.insert_lem d st.payments)) (write-AllSound S d st sound h)

  insert_payment-AllSound :
      (d : PaymentDoc) → IsSound d → Stable (AllSound S) (exec (insert_payment S d))
  insert_payment-AllSound d sound =
      Stable-exec (insert_payment S d) λ st h a st' e. inserted-AllSound d st st' sound h e

  upsert_merchant-AllSound :
      (id : String) (t : Time) → Stable (AllSound S) (exec (upsert_merchant S id t))
  upsert_merchant-AllSound id t =
      Stable-no_payment S (upsert_merchant S id t) λ st a st' e. ground arith

  upsert_customer-AllSound :
      (id : String) (t : Time) → Stable (AllSound S) (exec (upsert_customer S id t))
  upsert_customer-AllSound id t =
      Stable-no_payment S (upsert_customer S id t) λ st a st' e. ground arith

  mark_seen-AllSound : (k : String) (st : Store S) → AllSound S st → AllSound S (mark_seen S k st)
  mark_seen-AllSound k st h = record { at = h.at }

  onboard_actors-AllSound : (m c : String) → Stable (AllSound S) (onboard_actors S m c)
  unfolding onboard_actors
  onboard_actors-AllSound m c =
      search (stable_rules, upsert_merchant-AllSound, upsert_customer-AllSound, mark_seen-AllSound)
        depth 12

  pub create_payment-AllSound :
      (input : CreatePaymentInput) (key : String) → Stable (AllSound S) (create_payment S input key)
  unfolding create_payment
  create_payment-AllSound input key =
      search (stable_rules, onboard_actors-AllSound, insert_payment-AllSound, new_payment-IsSound)
        depth 12
