-- ===== src/Mongo/Transitions/Sound.antt =====
-- The methods on payments and the soundness of the stored payments.
use gripe.Common.{String, ◌≡◌, true, arith}
use gripe.Int.{ℤ}
use gripe.Domain.{Time, Actor}
use gripe.Exec.Stable.{Stable, stable_rules}
use gripe.Mongo.{Server, PaymentDoc}
use gripe.Mongo.Sound.{
  IsSound, AllSound, find_one_and_update-AllSound, find_payment-AllSound,
  apply_balance_delta-AllSound,
}
use gripe.Mongo.Transitions.{
  is_capturable, set_captured, is_settleable, set_settled, has_no_network_fee, set_network_fee,
  probe, get_payment, capture_payment, settle_payment, settle_network_fee,
}

set_captured-IsSound :
    (t : Time) (d : PaymentDoc) → is_capturable d ≡ true → IsSound d → IsSound (set_captured t d)
set_captured-IsSound t d q s = ground arith

set_settled-IsSound :
    (t : Time) (d : PaymentDoc) → is_settleable d ≡ true → IsSound d → IsSound (set_settled t d)
set_settled-IsSound t d q s = ground arith

set_network_fee-IsSound :
    (fee : ℤ) (t : Time) (d : PaymentDoc)
    → has_no_network_fee d ≡ true
    → IsSound d
    → IsSound (set_network_fee fee t d)
set_network_fee-IsSound fee t d q s = record {
  positive = s.positive;
  refunds_positive = s.refunds_positive;
  refunds_counted = s.refunds_counted;
  within_amount = s.within_amount;
  refunded_if_full = s.refunded_if_full;
  full_if_refunded = s.full_if_refunded;
}

module _ (S : Server) where
  probe-AllSound : (id : String) → Stable (AllSound S) (probe S id)
  unfolding probe
  probe-AllSound id = search (stable_rules, find_payment-AllSound)

  pub get_payment-AllSound :
      (id : String) (actor : Actor) → Stable (AllSound S) (get_payment S id actor)
  unfolding get_payment
  get_payment-AllSound id actor = search (stable_rules, find_payment-AllSound)

  pub capture_payment-AllSound : (id : String) → Stable (AllSound S) (capture_payment S id)
  unfolding capture_payment
  capture_payment-AllSound id =
      search (stable_rules, probe-AllSound, find_one_and_update-AllSound, set_captured-IsSound)

  pub settle_payment-AllSound : (id : String) → Stable (AllSound S) (settle_payment S id)
  unfolding settle_payment
  settle_payment-AllSound id = search (
    stable_rules, probe-AllSound, find_one_and_update-AllSound, set_settled-IsSound,
    apply_balance_delta-AllSound,
  )

  pub settle_network_fee-AllSound :
      (id : String) (fee : ℤ) → Stable (AllSound S) (settle_network_fee S id fee)
  unfolding settle_network_fee
  settle_network_fee-AllSound id fee =
      search
        (stable_rules, find_one_and_update-AllSound, find_payment-AllSound, set_network_fee-IsSound)
        depth 8
