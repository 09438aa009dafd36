-- ===== src/Mongo/Refunds/Sound.antt =====
-- RefundPayment, SettleRefund and the soundness of the stored payments.
use gripe.Common.{String, ◌≡◌, refl, true, false, List, [], ◌∷◌, arith}
use gripe.Int.{ℤ, pos, ◌+ℤ◌, leb_ℤ}
use gripe.Int.Laws.{int_laws, eqb_ℤ_iff}
use gripe.Domain.{Time}
use gripe.Exec.Stable.{Stable, stable_rules}
use gripe.Mongo.{Server, PaymentDoc, RefundElem}
use gripe.Mongo.Sound.{
  total, AllPositive, total-append, AllPositive-append, IsSound, AllSound,
  find_one_and_update-AllSound, find_one_and_update_where-AllSound, find_payment-AllSound,
  find_payment_where-AllSound, apply_balance_delta-AllSound,
}
use gripe.Mongo.Refunds.{
  can_refund, new_refund, add_refund, any_refund, is_open, settle_element, set_refund_settled,
  refund_payment, settle_refund,
}

total-settle_element :
    (id : String) (rs : List RefundElem) → total (settle_element id rs) ≡ total rs
unfolding settle_element
total-settle_element id [] = refl
total-settle_element id (r ∷ rs) = ground (arith, total-settle_element id rs)

AllPositive-settle_element :
    (id : String) (rs : List RefundElem) → AllPositive rs → AllPositive (settle_element id rs)
unfolding settle_element
AllPositive-settle_element id [] h = tt
AllPositive-settle_element id (r ∷ rs) h = ground (arith, AllPositive-settle_element id rs h.1)

set_refund_settled-IsSound :
    (id : String) (t : Time) (d : PaymentDoc)
    → any_refund (is_open id) d.refunds ≡ true
    → IsSound d
    → IsSound (set_refund_settled id t d)
set_refund_settled-IsSound id t d q s = record {
  positive = s.positive;
  refunds_positive = AllPositive-settle_element id d.refunds s.refunds_positive;
  refunds_counted = rw total-settle_element s.refunds_counted;
  within_amount = s.within_amount;
  refunded_if_full = s.refunded_if_full;
  full_if_refunded = s.full_if_refunded;
}

add_refund-IsSound :
    (id : String) (amount : ℤ) (t : Time) (d : PaymentDoc)
    → leb_ℤ amount (pos 0) ≡ false
    → can_refund amount d ≡ true
    → IsSound d
    → IsSound (add_refund id amount t d)
add_refund-IsSound id amount t d g q s =
    let sum = d.refunded_minor +ℤ amount in
    record {
      positive = s.positive;
      refunds_positive =
          AllPositive-append d.refunds (new_refund id amount t ∷ []) s.refunds_positive
            (ground arith);
      refunds_counted =
          rw (total-append d.refunds (new_refund id amount t ∷ []), s.refunds_counted)
            (omega int_laws);
      within_amount = ground arith;
      refunded_if_full = λ h. ground (arith, eqb_ℤ_iff sum d.amount_minor);
      full_if_refunded = λ h. ground (arith, eqb_ℤ_iff sum d.amount_minor);
    }

module _ (S : Server) where
  pub refund_payment-AllSound :
      (payment_id : String) (amount : ℤ) → Stable (AllSound S) (refund_payment S payment_id amount)
  unfolding refund_payment
  refund_payment-AllSound payment_id amount =
      search (stable_rules, find_one_and_update-AllSound, find_payment-AllSound, add_refund-IsSound)
        depth 10

  pub settle_refund-AllSound : (id : String) → Stable (AllSound S) (settle_refund S id)
  unfolding settle_refund
  settle_refund-AllSound id =
      search
        (
          stable_rules, find_one_and_update_where-AllSound, find_payment_where-AllSound,
          set_refund_settled-IsSound, apply_balance_delta-AllSound,
        )
        depth 10
