-- ===== src/Contract.antt =====
-- The contract of internal/store/store.go: what the methods promise, over what a client can ask for
-- by id. Both backends are held against it. It leaves `updated_at` open, since the backends differ
-- there.
pub mod Calls
pub mod SettleRefund
use gripe.Common.{String, ◌≡◌, Bool, Option, none, some, ◌==◌, ◌&&◌, ◌||◌, if◌then◌else◌}
use gripe.Int.{ℤ, pos, ◌+ℤ◌, eqb_ℤ, leb_ℤ}
use gripe.Int.Word.{sub64}
use gripe.Domain.{
  Time, Payment, PaymentStatus, Refund, refunded, created, Currency, authorized, captured, settled,
  pending, status_eq, currency_eq,
}
use gripe.Domain.Money.{gripe_fee}
use gripe.Exec.{Result, ok, err, not_found, invalid_state, over_refund}

-- The currency's ledger of a merchant: what is owed, and the fees paid.
pub record Ledger : Type 0 where
  pub owed : ℤ
  pub fees : ℤ

abbrev pub empty_ledger : Ledger
empty_ledger = record { owed = pos 0; fees = pos 0 }

abbrev pub credit : ℤ → ℤ → Ledger → Ledger
credit owed fees l = record { owed = l.owed +ℤ owed; fees = l.fees +ℤ fees }

pub record View : Type 0 where
  pub payment : String → Option Payment
  pub ledger : String → Currency → Ledger

-- A payment but for the time of its last update.
abbrev pub untimed : Payment → Payment
untimed p = record p { updated_at = 0 }

abbrev pub set_payment : Payment → View → View
set_payment p v = record v { payment = λ k. if p.id == k then some p else v.payment k }

abbrev pub move_balance : String → Currency → ℤ → ℤ → View → View
move_balance merchant currency owed fees v = record v {
  ledger = λ m c.
      if merchant == m && currency_eq currency c
      then credit owed fees (v.ledger m c)
      else v.ledger m c;
}

abbrev pub settleable : PaymentStatus → Bool
settleable s = status_eq s captured || status_eq s pending

-- A payment in a state that admits the step takes it; any other is refused and nothing changes.
abbrev pub step_payment :
    (PaymentStatus → Bool)
    → (Payment → View → Payment × View)
    → String
    → View
    → Result Payment × View
step_payment admits step id v = elim (v.payment id) [
  | none ↦ (err not_found, v)
  | some p ↦
      if admits p.status
      then (let (p', v') = step p v in (ok p', set_payment p' v'))
      else (err invalid_state, v)
]

abbrev pub capture : String → View → Result Payment × View
capture = step_payment (λ s. status_eq s authorized) (λ p v. (record p { status = captured }, v))

-- The balance moves with the status, by the amount less the fee.
abbrev pub settle : String → View → Result Payment × View
settle = step_payment settleable λ p v. (
  record p { status = settled },
  (let fee = gripe_fee p.amount_minor in
      move_balance p.merchant_id p.currency (sub64 p.amount_minor fee) fee v),
)

abbrev pub network_fee : ℤ → String → View → Result Payment × View
network_fee fee id v = elim (v.payment id) [
  | none ↦ (err not_found, v)
  | some p ↦
      if eqb_ℤ p.network_fee_minor (pos 0)
      then (let p' = record p { network_fee_minor = fee } in (ok p', set_payment p' v))
      else (ok p, v)
]

-- Two views that no client can tell apart.
pub record SameView (a b : View) : Type 0 where
  pub payments : (k : String) → a.payment k ≡ b.payment k
  pub ledgers : (m : String) (c : Currency) → a.ledger m c ≡ b.ledger m c

pub SameView-path : (a b : View) → SameView a b → a ≡ b
SameView-path a b h = λ i. record { payment = λ k. h.payments k i; ledger = λ m c. h.ledgers m c i }

-- The result of a method, but for the times of the last update.
abbrev pub untimed_result : Result Payment → Result Payment
untimed_result (ok p) = ok (untimed p)
untimed_result (err e) = err e

-- A method's result and the view after it are what the contract says.
abbrev pub Agrees : Result Payment → View → Result Payment × View → Type 0
Agrees r v spec = (untimed_result r ≡ spec.0) × SameView v spec.1

abbrev pub refundable : PaymentStatus → Bool
refundable s = status_eq s captured || status_eq s settled

-- A refund is open when it is created; its amount counts as refunded at once, and the refund that
-- consumes the payment makes it `refunded`.
abbrev pub refund_of : String → Time → ℤ → Payment → Refund
refund_of refund_id t amount p = record {
  id = refund_id;
  payment_id = p.id;
  merchant_id = p.merchant_id;
  amount_minor = amount;
  currency = p.currency;
  status = created;
  created_at = t;
}

abbrev pub less_refund : ℤ → Payment → Payment
less_refund amount p = record p {
  refunded_minor = p.refunded_minor +ℤ amount;
  status = if eqb_ℤ (p.refunded_minor +ℤ amount) p.amount_minor then refunded else p.status;
}

abbrev pub refund : String → Time → ℤ → String → View → Result Refund × View
refund refund_id t amount id v =
    if leb_ℤ amount (pos 0) then (err invalid_state, v) else (elim (v.payment id) [
      | none ↦ (err not_found, v)
      | some p ↦
          if refundable p.status
          then if leb_ℤ (p.refunded_minor +ℤ amount) p.amount_minor
            then (ok (refund_of refund_id t amount p), set_payment (less_refund amount p) v)
            else (err over_refund, v)
          else (err invalid_state, v)
    ])

abbrev pub AgreesRefund : Result Refund → View → Result Refund × View → Type 0
AgreesRefund r v spec = (r ≡ spec.0) × SameView v spec.1
