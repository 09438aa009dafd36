-- ===== src/Postgres/Refunds.antt =====
-- store/postgres/store.go: RefundPayment and SettleRefund, on the table `refunds`.
pub mod Kept
pub mod Overflow
pub mod Settled
use gripe.Common.{String, Bool, true, Option, none, some, ◌&&◌, ◌||◌, not, if◌then◌else◌}
use gripe.Int.{ℤ, pos, ◌+ℤ◌, leb_ℤ, eqb_ℤ}
use gripe.Int.Word.{sub64, neg64}
use gripe.Domain.{
  Time, PaymentStatus, captured, refunded, status_eq, Refund, RefundStatus, created,
  refund_status_eq,
}
use gripe.Domain.Money.{gripe_fee}
use gripe.Exec.{
  Action, Command, now, new_id, pure, raise, if_found, not_found, invalid_state, over_refund, ◌>>=◌,
  ◌>>◌,
}
use gripe.Postgres.{
  Server, Store, Tables, PaymentRow, RefundRow, exists, begin, tx_exec, commit, pool_exec,
  update_payment, select_payment_by_id, credit_balance,
}

abbrev pub is_refundable : PaymentStatus → Bool
is_refundable s = status_eq s captured || status_eq s PaymentStatus.settled

-- The WHERE clause beside the id, and the SET clause.
abbrev pub can_refund : ℤ → PaymentRow → Bool
can_refund amount r = is_refundable r.status && leb_ℤ (r.refunded_minor +ℤ amount) r.amount_minor

-- The sum in the WHERE clause is a bigint: the server refuses the statement where it is none, which
-- only the row of a refundable payment leads to.
abbrev pub sum_fits : ℤ → Option PaymentRow → Bool
sum_fits amount none = true
sum_fits amount (some r) =
    not (is_refundable r.status) || leb_ℤ (r.refunded_minor +ℤ amount) (pos 9223372036854775807)

abbrev pub add_refunded : ℤ → Time → PaymentRow → PaymentRow
add_refunded amount t r = record r { refunded_minor = r.refunded_minor +ℤ amount; updated_at = t }

abbrev pub set_refunded : Time → PaymentRow → PaymentRow
set_refunded t r = record r { status = refunded; updated_at = t }

abbrev pub new_refund : String → String → ℤ → Time → RefundRow
new_refund id payment_id amount t = record {
  id = id;
  payment_id = payment_id;
  amount_minor = amount;
  status = created;
  created_at = t;
}

abbrev pub to_refund : RefundRow → PaymentRow → Refund
to_refund r p = record {
  id = r.id;
  payment_id = r.payment_id;
  merchant_id = p.merchant_id;
  amount_minor = r.amount_minor;
  currency = p.currency;
  status = r.status;
  created_at = r.created_at;
}

abbrev pub is_open : RefundRow → Bool
is_open r = refund_status_eq r.status created

abbrev pub set_settled : RefundRow → RefundRow
set_settled r = record r { status = RefundStatus.settled }

module _ (S : Server) where
  -- The first UPDATE.
  abbrev pub bump_refunded : String → ℤ → Time → Command (Tables S) (Option PaymentRow)
  bump_refunded id amount t tables =
      if sum_fits amount (S.payments.find id tables.payments)
      then update_payment S id (can_refund amount) (add_refunded amount t) tables
      else none

  -- INSERT INTO refunds; the row refers to a payment.
  abbrev pub insert_refund : RefundRow → Command (Tables S) Unit
  insert_refund r t =
      if exists (S.payments.find r.payment_id t.payments)
      then (elim (S.refunds.insert r t.refunds) [
        | none ↦ none
        | some s ↦ some (tt, record t { refunds = s })
      ])
      else none

  -- UPDATE refunds r ... FROM payments p WHERE p.id = r.payment_id: a refund without its payment
  -- does not match.
  abbrev pub with_refunds :
      Tables S
      → PaymentRow
      → Option (RefundRow × S.refunds.State)
      → Option (RefundRow × PaymentRow) × Tables S
  with_refunds t p none = (none, t)
  with_refunds t p (some (r, s)) = (some (r, p), record t { refunds = s })

  abbrev pub join_payment :
      String → Tables S → Option PaymentRow → Option (RefundRow × PaymentRow) × Tables S
  join_payment id t none = (none, t)
  join_payment id t (some p) = with_refunds t p (S.refunds.update id is_open set_settled t.refunds)

  abbrev pub parent_of : Tables S → Option RefundRow → Option PaymentRow
  parent_of t none = none
  parent_of t (some r) = S.payments.find r.payment_id t.payments

  abbrev pub flip_refund : String → Command (Tables S) (Option (RefundRow × PaymentRow))
  flip_refund id t = some (join_payment id t (parent_of t (S.refunds.find id t.refunds)))

  abbrev pub select_refund : String → Command (Tables S) (Option RefundRow)
  select_refund id t = some (S.refunds.find id t.refunds, t)

  -- The second UPDATE, where the refund consumed the payment.
  unfoldable pub flip_if_full :
      String → PaymentRow → Time → Tables S → Action (Store S) (Unit × Tables S)
  flip_if_full id r t tx =
      if eqb_ℤ r.refunded_minor r.amount_minor
      then (do
        flipped ← tx_exec S (update_payment S id (λ _. true) (set_refunded t)) tx
        pure (tt, flipped.1))
      else pure (tt, tx)

  unfoldable pub refund_payment : String → ℤ → Action (Store S) Refund
  unfolding flip_if_full begin tx_exec commit select_payment_by_id pool_exec
  refund_payment payment_id amount = if leb_ℤ amount (pos 0) then raise invalid_state else (do
    t ← now
    tx ← begin S
    bumped ← tx_exec S (bump_refunded payment_id amount t) tx
    if_found bumped.0
        (do
          current ← select_payment_by_id S payment_id
          if is_refundable current.status then raise over_refund else raise invalid_state)
        λ p. do
          flipped ← flip_if_full payment_id p t bumped.1
          id ← new_id "re"
          inserted ← tx_exec S (insert_refund (new_refund id payment_id amount t)) flipped.1
          commit S inserted.1
          pure (to_refund (new_refund id payment_id amount t) p))

  unfoldable pub settle_refund : String → Action (Store S) Refund
  unfolding begin tx_exec commit pool_exec credit_balance
  settle_refund id = do
    tx ← begin S
    flipped ← tx_exec S (flip_refund id) tx
    if_found flipped.0
        (do
          probed ← pool_exec S (select_refund id)
          if_found probed (raise not_found) λ r. raise invalid_state)
        λ found. do
          let r = to_refund found.0 found.1
          let fee = gripe_fee r.amount_minor
          credited ←
              credit_balance S r.merchant_id r.currency (neg64 (sub64 r.amount_minor fee))
                (neg64 fee) flipped.1
          commit S credited.1
          pure r
