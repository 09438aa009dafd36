-- ===== src/Postgres/Sound/Methods.antt =====
-- store/postgres/store.go: GetPayment, CapturePayment, SettlePayment and SettleNetworkFee, and the
-- links between the tables.
use gripe.Common.{String, ◌≡◌, refl, false, some, arith}
use gripe.Int.{ℤ, pos, eqb_ℤ}
use gripe.Domain.{Time, Actor, Currency, Payment}
use gripe.Exec.{pure, raise, forbidden, ◌>>=◌, ◌>>◌}
use gripe.Exec.Triple.{
  Gives-if, Triple, Triple-pure, Triple-raise, Triple-bind, Triple-if, Triple-if_found, Triple-now,
}
use gripe.Postgres.{
  Server, Store, Tables, BalanceRow, exists, add_to_balance, commit, select_payment,
  select_payment_by_id, credit_balance, upsert_balance,
}
use gripe.Postgres.Transitions.{
  is_capturable, has_no_network_fee, is_settleable, set_captured, set_settled, set_network_fee,
  may_see, get_payment, capture_payment, settle_payment, settle_network_fee,
}
use gripe.Postgres.Sound.{IsSound, Within, KeepsActors}
use gripe.Postgres.Sound.Commands.{
  TxGives, linked_tx-Triple, update_tx-Triple, update_pool-Triple, pool_exec-Triple, begin-Triple,
  commit-Triple,
}

module _ (S : Server) where
  pub select-Triple :
      (id : String) {pre : Store S → Type 0}
      → Triple (IsSound S) pre (select_payment_by_id S id) (λ _ _. Unit)
  unfolding select_payment_by_id
  select-Triple id =
      Triple-bind _ _ (pool_exec-Triple S (λ _ _. Unit) (select_payment S id) (λ st i. (i, tt)))
        λ found. Triple-if_found found _ _ (λ _. Triple-raise _) λ r e. Triple-pure _ (λ st i p. tt)

  pub get_payment-Triple :
      (id : String) (actor : Actor)
      → Triple (IsSound S) (λ _. Unit) (get_payment S id actor) (λ _ _. Unit)
  unfolding get_payment
  get_payment-Triple id actor = Triple-bind _ _ (select-Triple id) λ p.
      Triple-if (may_see actor p) (pure p) (raise forbidden) (λ _. Triple-pure p (λ st i p. tt))
        (λ _. Triple-raise forbidden)

  captured_keeps : (t : Time) → KeepsActors (set_captured t)
  captured_keeps t = record {
    same_merchant = λ r. refl;
    same_customer = λ r. refl;
    fee_not_zero = λ r fee h e. h fee e;
  }

  settled_keeps : (t : Time) → KeepsActors (set_settled t)
  settled_keeps t = record {
    same_merchant = λ r. refl;
    same_customer = λ r. refl;
    fee_not_zero = λ r fee h e. h fee e;
  }

  fee_keeps : (fee : ℤ) (t : Time) → eqb_ℤ fee (pos 0) ≡ false → KeepsActors (set_network_fee fee t)
  fee_keeps fee t positive = record {
    same_merchant = λ r. refl;
    same_customer = λ r. refl;
    fee_not_zero = λ r x h e. ground arith;
  }

  pub capture_payment-Triple :
      (id : String) → Triple (IsSound S) (λ _. Unit) (capture_payment S id) (λ _ _. Unit)
  unfolding capture_payment
  capture_payment-Triple id = Triple-bind _ _ Triple-now λ t.
      Triple-bind _ _ (update_pool-Triple S id is_capturable (set_captured t) (captured_keeps t))
        λ found.
          Triple-if_found found _ _ (λ _. Triple-bind _ _ (select-Triple id) λ _. Triple-raise _)
            λ r e. select-Triple id

  pub settle_network_fee-Triple :
      (id : String) (fee : ℤ)
      → eqb_ℤ fee (pos 0) ≡ false
      → Triple (IsSound S) (λ _. Unit) (settle_network_fee S id fee) (λ _ _. Unit)
  unfolding settle_network_fee
  settle_network_fee-Triple id fee positive = Triple-bind _ _ Triple-now λ t.
      Triple-bind _ _
        (update_pool-Triple S id has_no_network_fee (set_network_fee fee t)
          (fee_keeps fee t positive))
        λ found. select-Triple id

  upsert_balance-TxGives :
      (b : BalanceRow) (st : Store S) (tx : Tables S)
      → Within S tx st
      → TxGives S st (λ _ _. Unit) (upsert_balance S b tx)
  upsert_balance-TxGives b st tx h =
      let moved = S.balances.upsert b (add_to_balance b.balance_minor b.fees_minor) tx.balances in
      Gives-if (λ a t. Within S t st × Unit) (exists (S.merchants.find b.merchant_id tx.merchants))
        (some (tt, record tx { balances = moved }))
        λ there. (
          record {
            merchant_of = h.merchant_of;
            customer_of = h.customer_of;
            payment_of = h.payment_of;
            seen_merchant = h.seen_merchant;
            seen_customer = h.seen_customer;
            subscriber_of = h.subscriber_of;
            fee_set = h.fee_set;
          },
          tt,
        )

  pub credit-Triple :
      (m : String) (c : Currency) (x y : ℤ) (tx : Tables S)
      → Triple (IsSound S) (Within S tx) (credit_balance S m c x y tx) (λ r. Within S r.1)
  unfolding credit_balance
  credit-Triple m c x y tx =
      let b : BalanceRow = record {
        merchant_id = m;
        currency = c;
        balance_minor = x;
        fees_minor = y;
      } in
      linked_tx-Triple S (upsert_balance S b) tx λ st h. upsert_balance-TxGives b st tx h

  credited-Triple :
      (p : Payment) (m : String) (c : Currency) (x y : ℤ) (tx : Tables S)
      → Triple
          (IsSound S)
          (Within S tx)
          (do credited ← credit_balance S m c x y tx; commit S credited.1; pure p)
          (λ _ _. Unit)
  credited-Triple p m c x y tx =
      Triple-bind _ _ (credit-Triple m c x y tx)
        λ credited. Triple-bind _ _ (commit-Triple S credited.1) λ _. Triple-pure p (λ st i p. tt)

  pub settle_payment-Triple :
      (id : String) → Triple (IsSound S) (λ _. Unit) (settle_payment S id) (λ _ _. Unit)
  unfolding settle_payment
  settle_payment-Triple id = Triple-bind _ _ Triple-now λ t. Triple-bind _ _ (begin-Triple S) λ tx.
      Triple-bind _ _ (update_tx-Triple S id is_settleable (set_settled t) tx (settled_keeps t))
        λ flipped.
          Triple-if_found flipped.0 _ _
            (λ _. Triple-bind _ _ (select-Triple id) λ _. Triple-raise _)
            λ r e. credited-Triple _ _ _ _ _ flipped.1
