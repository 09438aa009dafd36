-- ===== src/Contract/SettleRefund.antt =====
-- internal/store/store.go: what SettleRefund promises, over the refunds that a client can ask for by
-- id, beside the payments and the ledgers.
use gripe.Common.{String, ◌≡◌, Option, none, some, ◌==◌, if◌then◌else◌}
use gripe.Int.Word.{sub64, neg64}
use gripe.Domain.{Refund, RefundStatus, created, refund_status_eq}
use gripe.Domain.Money.{gripe_fee}
use gripe.Exec.{Result, ok, err, not_found, invalid_state}
use gripe.Contract.{View, SameView, move_balance}

abbrev pub Refunds : Type 0
Refunds = String → Option Refund

abbrev pub set_refund : Refund → Refunds → Refunds
set_refund r refunds k = if r.id == k then some r else refunds k

-- An open refund is settled, and its merchant's ledger falls by the amount less the fee on it and by
-- the fee; any other refund is refused and nothing changes.
abbrev pub settle_refund : String → Refunds → View → Result Refund × Refunds × View
settle_refund id refunds v = elim (refunds id) [
  | none ↦ (err not_found, refunds, v)
  | some r ↦
      if refund_status_eq r.status created
      then (let r' = record r { status = RefundStatus.settled } in
          let fee = gripe_fee r.amount_minor in
          (
            ok r',
            set_refund r' refunds,
            move_balance r.merchant_id r.currency (neg64 (sub64 r.amount_minor fee)) (neg64 fee) v,
          ))
      else (err invalid_state, refunds, v)
]

-- A method's result, and what can be seen after it, are what the contract says.
abbrev pub AgreesSettled : Result Refund → Refunds → View → Result Refund × Refunds × View → Type 0
AgreesSettled r refunds v spec =
    (r ≡ spec.0) × ((k : String) → refunds k ≡ spec.1 k) × SameView v spec.2
