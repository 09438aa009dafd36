-- ===== src/Mongo/Transitions.antt =====
-- store/mongo/store.go: GetPayment, CapturePayment, SettlePayment and SettleNetworkFee.
pub mod Kept
pub mod Sound
pub mod Once
use gripe.Common.{ℕ, String, Bool, true, false, Option, none, some, ◌==◌, ◌||◌, if◌then◌else◌}
use gripe.Int.{ℤ, pos, leb_ℤ, eqb_ℤ}
use gripe.Int.Word.{sub64}
use gripe.Domain.{
  Time, Payment, PaymentStatus, authorized, captured, settled, pending, Actor, ActorRole, admin,
  merchant, customer, status_eq,
}
use gripe.Domain.Money.{gripe_fee}
use gripe.Exec.{
  Action, exec, now, pure, raise, if_found, not_found, forbidden, invalid_state, ◌>>=◌, ◌>>◌,
}
use gripe.Mongo.{
  Server, Store, PaymentDoc, to_domain, find_payment, find_one_and_update, apply_balance_delta,
}

-- The filters and the updates, as the methods write them.
abbrev is_capturable : PaymentDoc → Bool
is_capturable d = status_eq d.status authorized

abbrev set_captured : Time → PaymentDoc → PaymentDoc
set_captured t d = record d { status = captured; updated_at = t }

abbrev is_settleable : PaymentDoc → Bool
is_settleable d = status_eq d.status captured || status_eq d.status pending

abbrev set_settled : Time → PaymentDoc → PaymentDoc
set_settled t d = record d { status = settled; updated_at = t }

abbrev pub has_no_network_fee : PaymentDoc → Bool
has_no_network_fee d = eqb_ℤ d.network_fee_minor (pos 0)

abbrev pub set_network_fee : ℤ → Time → PaymentDoc → PaymentDoc
set_network_fee fee t d = record d { network_fee_minor = fee; updated_at = t }

-- The actor's claim on a document.
unfoldable pub may_see : Actor → String → String → Bool
may_see actor merchant_id customer_id = elim actor.role [
  | admin ↦ true
  | merchant ↦ merchant_id == actor.id
  | customer ↦ customer_id == actor.id
  | ActorRole.other s ↦ false
]

module _ (S : Server) where
  unfoldable pub get_payment : String → Actor → Action (Store S) Payment
  get_payment id actor = do
    found ← exec (find_payment S id)
    if_found found (raise not_found) λ d.
        if may_see actor d.merchant_id d.customer_id then pure (to_domain d) else raise forbidden

  -- After an update that matched nothing: is the payment missing, or in another state?
  probe : String → Action (Store S) Payment
  probe id = do
    found ← exec (find_payment S id)
    if_found found (raise not_found) λ current. raise invalid_state

  unfoldable pub capture_payment : String → Action (Store S) Payment
  unfolding probe
  capture_payment id = do
    t ← now
    found ← exec (find_one_and_update S id is_capturable (set_captured t))
    if_found found (probe id) λ d. pure (to_domain d)

  unfoldable pub settle_payment : String → Action (Store S) Payment
  unfolding probe apply_balance_delta
  settle_payment id = do
    t ← now
    found ← exec (find_one_and_update S id is_settleable (set_settled t))
    if_found found (probe id) λ d. do
      let fee = gripe_fee d.amount_minor
      apply_balance_delta S d.merchant_id d.currency (sub64 d.amount_minor fee) fee
      pure (to_domain d)

  unfoldable pub settle_network_fee : String → ℤ → Action (Store S) Payment
  settle_network_fee id fee_minor = if leb_ℤ fee_minor (pos 0) then raise invalid_state else (do
    t ← now
    found ← exec (find_one_and_update S id has_no_network_fee (set_network_fee fee_minor t))
    if_found found
        (do
          current ← exec (find_payment S id)
          if_found current (raise not_found) λ d. pure (to_domain d))
        λ d. pure (to_domain d))
