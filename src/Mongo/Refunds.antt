-- ===== src/Mongo/Refunds.antt =====
-- store/mongo/store.go: RefundPayment and SettleRefund, on the refunds embedded in a payment.
pub mod Sound
pub mod Kept
pub mod Debit
pub mod Elements
pub mod Unique
pub mod Settled
use gripe.Common.{
  String, Bool, true, false, Option, none, some, List, [], ◌∷◌, ◌++◌, ◌==◌, ◌&&◌, ◌||◌,
  if◌then◌else◌,
}
use gripe.Int.{ℤ, pos, ◌+ℤ◌, leb_ℤ, eqb_ℤ}
use gripe.Int.Word.{sub64, neg64}
use gripe.Domain.{
  Time, PaymentStatus, captured, refunded, status_eq, Refund, RefundStatus, created,
  refund_status_eq,
}
use gripe.Domain.Money.{gripe_fee}
use gripe.Exec.{
  Action, Command, exec, now, new_id, pure, raise, if_found, not_found, invalid_state, over_refund,
  driver, ◌>>=◌, ◌>>◌,
}
use gripe.Mongo.{
  Server, Store, PaymentDoc, RefundElem, refund_to_domain, find_payment, find_one_and_update,
  find_payment_where, find_one_and_update_where, apply_balance_delta,
}

abbrev pub is_refundable : PaymentDoc → Bool
is_refundable d = status_eq d.status captured || status_eq d.status PaymentStatus.settled

-- The filter of RefundPayment beside the id: refundable, and the refund fits.
abbrev can_refund : ℤ → PaymentDoc → Bool
can_refund amount d = is_refundable d && leb_ℤ (d.refunded_minor +ℤ amount) d.amount_minor

abbrev new_refund : String → ℤ → Time → RefundElem
new_refund id amount t = record { id = id; amount_minor = amount; status = created; created_at = t }

-- The pipeline update: every expression reads the document as it was before.
abbrev add_refund : String → ℤ → Time → PaymentDoc → PaymentDoc
add_refund id amount t d = record d {
  refunded_minor = d.refunded_minor +ℤ amount;
  status =
      if eqb_ℤ (d.refunded_minor +ℤ amount) d.amount_minor
      then PaymentStatus.refunded
      else d.status;
  refunds = d.refunds ++ new_refund id amount t ∷ [];
  updated_at = t;
}

-- `{"refunds.id": id}`
unfoldable pub any_refund : (RefundElem → Bool) → List RefundElem → Bool
any_refund p [] = false
any_refund p (r ∷ rs) = p r || any_refund p rs

abbrev pub has_id : String → RefundElem → Bool
has_id id r = r.id == id

-- `$elemMatch`: the id and the status of one element.
abbrev pub is_open : String → RefundElem → Bool
is_open id r = r.id == id && refund_status_eq r.status created

-- The positional `$`: the first element that the filter matched.
unfoldable pub settle_element : String → List RefundElem → List RefundElem
settle_element id [] = []
settle_element id (r ∷ rs) =
    if is_open id r
    then record r { status = RefundStatus.settled } ∷ rs
    else r ∷ settle_element id rs

abbrev pub set_refund_settled : String → Time → PaymentDoc → PaymentDoc
set_refund_settled id t d = record d { refunds = settle_element id d.refunds; updated_at = t }

-- The loop over `updated.Refunds`; the caller also takes an empty id for no element.
unfoldable pub locate : String → List RefundElem → Option RefundElem
locate id [] = none
locate id (r ∷ rs) = if r.id == id then some r else locate id rs

module _ (S : Server) where
  unfoldable pub refund_payment : String → ℤ → Action (Store S) Refund
  refund_payment payment_id amount = if leb_ℤ amount (pos 0) then raise invalid_state else (do
    t ← now
    id ← new_id "re"
    found ← exec (find_one_and_update S payment_id (can_refund amount) (add_refund id amount t))
    if_found found
        (do
          probed ← exec (find_payment S payment_id)
          if_found probed (raise not_found)
              λ current. if is_refundable current then raise over_refund else raise invalid_state)
        λ updated. pure (refund_to_domain (new_refund id amount t) updated))

  unfoldable pub settle_refund : String → Action (Store S) Refund
  unfolding apply_balance_delta
  settle_refund id = do
    t ← now
    found ← exec (
        find_one_and_update_where S (λ d. any_refund (is_open id) d.refunds)
          (set_refund_settled id t))
    if_found found
        (do
          probed ← exec (find_payment_where S (λ d. any_refund (has_id id) d.refunds))
          if_found probed (raise not_found) λ current. raise invalid_state)
        λ updated. if_found (locate id updated.refunds) (raise driver) λ r.
          if r.id == "" then raise driver else (do
            let fee = gripe_fee r.amount_minor
            apply_balance_delta S updated.merchant_id updated.currency
                (neg64 (sub64 r.amount_minor fee)) (neg64 fee)
            pure (refund_to_domain r updated))
