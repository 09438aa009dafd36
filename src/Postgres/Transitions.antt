-- ===== src/Postgres/Transitions.antt =====
-- store/postgres/store.go: GetPayment, CapturePayment, SettlePayment and SettleNetworkFee.
pub mod Kept
pub mod Atomic
pub mod Once
use gripe.Common.{ℕ, String, Bool, true, false, Option, none, some, ◌==◌, ◌||◌, if◌then◌else◌}
use gripe.Int.{ℤ, pos}
use gripe.Int.Word.{sub64}
use gripe.Domain.{
  Time, Payment, PaymentStatus, authorized, captured, settled, pending, Actor, ActorRole, admin,
  merchant, customer, status_eq,
}
use gripe.Domain.Money.{gripe_fee}
use gripe.Exec.{
  Action, Command, now, pure, raise, if_found, not_found, forbidden, invalid_state, ◌>>=◌, ◌>>◌,
}
use gripe.Postgres.{
  Server, Store, Tables, PaymentRow, BalanceRow, to_payment, begin, tx_exec, commit, pool_exec,
  select_payment, update_payment, select_payment_by_id, credit_balance,
}

abbrev pub is_capturable : PaymentRow → Bool
is_capturable r = status_eq r.status authorized

abbrev pub set_captured : Time → PaymentRow → PaymentRow
set_captured t r = record r { status = captured; updated_at = t }

abbrev pub is_settleable : PaymentRow → Bool
is_settleable r = status_eq r.status captured || status_eq r.status pending

abbrev pub set_settled : Time → PaymentRow → PaymentRow
set_settled t r = record r { status = settled; updated_at = t }

abbrev pub has_no_network_fee : PaymentRow → Bool
has_no_network_fee r = elim r.network_fee_minor [ none ↦ true | some _ ↦ false ]

abbrev pub set_network_fee : ℤ → Time → PaymentRow → PaymentRow
set_network_fee fee t r = record r { network_fee_minor = some fee; updated_at = t }

-- The row that `creditBalance` sends then.
abbrev pub credit_row : Payment → BalanceRow
credit_row p =
    let fee = gripe_fee p.amount_minor in
    record {
      merchant_id = p.merchant_id;
      currency = p.currency;
      balance_minor = sub64 p.amount_minor fee;
      fees_minor = fee;
    }

unfoldable pub may_see : Actor → Payment → Bool
may_see actor p = elim actor.role [
  | admin ↦ true
  | merchant ↦ p.merchant_id == actor.id
  | customer ↦ p.customer_id == actor.id
  | ActorRole.other s ↦ false
]

module _ (S : Server) where
  unfoldable pub get_payment : String → Actor → Action (Store S) Payment
  unfolding select_payment_by_id
  get_payment id actor = do
    p ← select_payment_by_id S id
    if may_see actor p then pure p else raise forbidden

  -- RowsAffected is 0 where nothing matched.
  unfoldable pub capture_payment : String → Action (Store S) Payment
  unfolding select_payment_by_id pool_exec
  capture_payment id = do
    t ← now
    found ← pool_exec S (update_payment S id is_capturable (set_captured t))
    if_found found (do current ← select_payment_by_id S id; raise invalid_state)
        λ r. select_payment_by_id S id

  -- The probe goes to the pool, and reads the committed tables.
  unfoldable pub settle_payment : String → Action (Store S) Payment
  unfolding select_payment_by_id credit_balance begin tx_exec commit pool_exec
  settle_payment id = do
    t ← now
    tx ← begin S
    flipped ← tx_exec S (update_payment S id is_settleable (set_settled t)) tx
    if_found flipped.0 (do current ← select_payment_by_id S id; raise invalid_state)
        λ r. do
          let p = record (to_payment r) { status = settled }
          let fee = gripe_fee p.amount_minor
          credited ←
              credit_balance S p.merchant_id p.currency (sub64 p.amount_minor fee) fee flipped.1
          commit S credited.1
          pure p

  unfoldable pub settle_network_fee : String → ℤ → Action (Store S) Payment
  unfolding select_payment_by_id pool_exec
  settle_network_fee id fee_minor = do
    t ← now
    pool_exec S (update_payment S id has_no_network_fee (set_network_fee fee_minor t))
    select_payment_by_id S id
