-- ===== src/Postgres/Subscriptions.antt =====
-- store/postgres/store.go: CreateSubscription, CancelSubscription, DueSubscriptions and
-- AdvanceSubscription.
use gripe.Common.{
  ℕ, String, Bool, true, Option, none, some, List, is_blank, not, ◌&&◌, ◌||◌, leb, ltb,
  if◌then◌else◌,
}
use gripe.Int.{ℤ, pos, pos_part, leb_ℤ, ltb_ℤ, eqb_ℤ}
use gripe.Int.Word.{add64}
use gripe.Domain.{
  Time, Subscription, active, cancelled, CreateSubscriptionInput, is_zero, currency_valid,
  method_valid, cadence_valid, subscription_status_eq,
}
use gripe.Query.{filter, sort, take, map}
use gripe.Exec.{
  Action, Command, now, new_id, modify, pure, raise, if_found, not_found, invalid_state, ◌>>=◌,
  ◌>>◌,
}
use gripe.Postgres.{
  Server, Store, Tables, SubscriptionRow, exists, begin, tx_exec, commit, pool_exec,
}
use gripe.Postgres.Create.{upsert_parties, mark_seen}

abbrev pub to_subscription : SubscriptionRow → Subscription
to_subscription r = record {
  id = r.id;
  merchant_id = r.merchant_id;
  customer_id = r.customer_id;
  amount_minor = r.amount_minor;
  currency = r.currency;
  method = r.method;
  cadence = r.cadence;
  status = r.status;
  next_charge_at = r.next_charge_at;
  next_cycle_idx = r.next_cycle_idx;
  created_at = r.created_at;
}

unfoldable pub refuses_subscription : CreateSubscriptionInput → Bool
refuses_subscription input =
    is_blank input.merchant_id
    || is_blank input.customer_id
    || leb_ℤ input.amount_minor (pos 0)
    || not (currency_valid input.currency)
    || not (method_valid input.method)
    || not (cadence_valid input.cadence)

abbrev pub new_subscription : String → Time → Time → CreateSubscriptionInput → SubscriptionRow
new_subscription id start t input = record {
  id = id;
  merchant_id = input.merchant_id;
  customer_id = input.customer_id;
  amount_minor = input.amount_minor;
  currency = input.currency;
  method = input.method;
  cadence = input.cadence;
  status = active;
  next_charge_at = start;
  next_cycle_idx = pos 0;
  created_at = t;
  updated_at = none;
}

abbrev pub set_cancelled : Time → SubscriptionRow → SubscriptionRow
set_cancelled t r = record r { status = cancelled; updated_at = some t }

abbrev pub is_at_cycle : ℤ → SubscriptionRow → Bool
is_at_cycle idx r = eqb_ℤ r.next_cycle_idx idx

abbrev pub set_next_cycle : ℤ → Time → Time → SubscriptionRow → SubscriptionRow
set_next_cycle idx next_charge_at t r = record r {
  next_charge_at = next_charge_at;
  next_cycle_idx = add64 idx (pos 1);
  updated_at = some t;
}

abbrev pub due_limit : ℤ → ℕ
due_limit limit = if leb_ℤ limit (pos 0) || ltb_ℤ (pos 500) limit then 100 else pos_part limit

abbrev pub is_due : Time → SubscriptionRow → Bool
is_due as_of r = subscription_status_eq r.status active && leb r.next_charge_at as_of

abbrev pub is_earlier : SubscriptionRow → SubscriptionRow → Bool
is_earlier r q = ltb r.next_charge_at q.next_charge_at

module _ (S : Server) where
  -- INSERT INTO subscriptions; the row refers to a merchant and a customer.
  abbrev pub insert_subscription : SubscriptionRow → Command (Tables S) Unit
  insert_subscription r t =
      if exists (S.merchants.find r.merchant_id t.merchants)
        && exists (S.customers.find r.customer_id t.customers)
      then (elim (S.subscriptions.insert r t.subscriptions) [
        | none ↦ none
        | some s ↦ some (tt, record t { subscriptions = s })
      ])
      else none

  abbrev pub with_subscriptions :
      {A : Type 0} → Tables S → Option (A × S.subscriptions.State) → Option A × Tables S
  with_subscriptions t none = (none, t)
  with_subscriptions t (some (a, s)) = (some a, record t { subscriptions = s })

  abbrev pub update_subscription :
      String
      → (SubscriptionRow → Bool)
      → (SubscriptionRow → SubscriptionRow)
      → Command (Tables S) (Option SubscriptionRow)
  update_subscription id filter update t =
      some (with_subscriptions t (S.subscriptions.update id filter update t.subscriptions))

  -- No other transaction holds a lock here, so SKIP LOCKED skips nothing.
  abbrev pub select_due : Time → ℕ → Command (Tables S) (List SubscriptionRow)
  select_due as_of limit t = some (
    take limit (sort is_earlier (filter (is_due as_of) (S.subscriptions.scan t.subscriptions))),
    t,
  )

  abbrev pub start_of : Time → Action (Store S) Time
  start_of start = if is_zero start then now else pure start

  unfoldable pub create_subscription : CreateSubscriptionInput → Action (Store S) Subscription
  unfolding upsert_parties begin tx_exec commit
  create_subscription input = if refuses_subscription input then raise invalid_state else (do
    start ← start_of input.start_at
    t ← now
    id ← new_id "sub"
    tx ← begin S
    onboarded ← upsert_parties S input.merchant_id input.customer_id tx
    inserted ← tx_exec S (insert_subscription (new_subscription id start t input)) onboarded.1
    commit S inserted.1
    modify (mark_seen S input.merchant_id input.customer_id)
    pure (to_subscription (new_subscription id start t input)))

  unfoldable pub cancel_subscription : String → Action (Store S) Subscription
  unfolding pool_exec
  cancel_subscription id = do
    t ← now
    found ← pool_exec S (update_subscription id (λ r. true) (set_cancelled t))
    if_found found (raise not_found) λ r. pure (to_subscription r)

  unfoldable pub due_subscriptions : Time → ℤ → Action (Store S) (List Subscription)
  unfolding pool_exec
  due_subscriptions as_of limit = do
    rows ← pool_exec S (select_due as_of (due_limit limit))
    pure (map to_subscription rows)

  unfoldable pub advance_subscription : String → ℤ → Time → Action (Store S) Unit
  unfolding pool_exec
  advance_subscription id idx next_charge_at = do
    t ← now
    found ←
        pool_exec S (update_subscription id (is_at_cycle idx) (set_next_cycle idx next_charge_at t))
    pure tt
