-- ===== src/Mongo/Subscriptions.antt =====
-- store/mongo/store.go: CreateSubscription, CancelSubscription, DueSubscriptions and
-- AdvanceSubscription.
pub mod Due
pub mod Cycle
use gripe.Common.{String, Bool, true, Option, none, some, is_blank, not, ◌||◌, if◌then◌else◌}
use gripe.Int.{ℤ, pos, leb_ℤ, eqb_ℤ}
use gripe.Int.Word.{add64}
use gripe.Domain.{
  Time, Subscription, active, cancelled, CreateSubscriptionInput, is_zero, currency_valid,
  method_valid, cadence_valid,
}
use gripe.Exec.{
  Action, Command, exec, now, new_id, pure, raise, if_found, not_found, invalid_state, ◌>>=◌, ◌>>◌,
}
use gripe.Mongo.{Server, Store, SubscriptionDoc}
use gripe.Mongo.Create.{onboard_actors}

abbrev pub subscription_to_domain : SubscriptionDoc → Subscription
subscription_to_domain d = record {
  id = d.id;
  merchant_id = d.merchant_id;
  customer_id = d.customer_id;
  amount_minor = d.amount_minor;
  currency = d.currency;
  method = d.method;
  cadence = d.cadence;
  status = d.status;
  next_charge_at = d.next_charge_at;
  next_cycle_idx = d.next_cycle_idx;
  created_at = d.created_at;
}

-- The guards of CreateSubscription; each refuses with ErrInvalidState.
unfoldable pub refuses_subscription : CreateSubscriptionInput → Bool
refuses_subscription input =
    is_blank input.merchant_id
    || is_blank input.customer_id
    || leb_ℤ input.amount_minor (pos 0)
    || not (currency_valid input.currency)
    || not (method_valid input.method)
    || not (cadence_valid input.cadence)

abbrev new_subscription : String → Time → Time → CreateSubscriptionInput → SubscriptionDoc
new_subscription id start t input = record {
  id = id;
  merchant_id = input.merchant_id;
  customer_id = input.customer_id;
  amount_minor = input.amount_minor;
  currency = input.currency;
  method = input.method;
  cadence = input.cadence;
  status = active;
  next_charge_at = start;
  next_cycle_idx = pos 0;
  created_at = t;
  updated_at = none;
}

abbrev pub set_cancelled : Time → SubscriptionDoc → SubscriptionDoc
set_cancelled t d = record d { status = cancelled; updated_at = some t }

abbrev is_at_cycle : ℤ → SubscriptionDoc → Bool
is_at_cycle idx d = eqb_ℤ d.next_cycle_idx idx

abbrev pub set_next_cycle : ℤ → Time → Time → SubscriptionDoc → SubscriptionDoc
set_next_cycle idx next_charge_at t d = record d {
  next_charge_at = next_charge_at;
  next_cycle_idx = add64 idx (pos 1);
  updated_at = some t;
}

module _ (S : Server) where
  abbrev insert_subscription : SubscriptionDoc → Command (Store S) Unit
  insert_subscription d st = elim (S.subscriptions.insert d st.subscriptions) [
    | none ↦ none
    | some s ↦ some (tt, record st { subscriptions = s })
  ]

  abbrev with_subscriptions :
      {A : Type 0} → Store S → Option (A × S.subscriptions.State) → Option A × Store S
  with_subscriptions st none = (none, st)
  with_subscriptions st (some (a, s)) = (some a, record st { subscriptions = s })

  abbrev update_subscription :
      String
      → (SubscriptionDoc → Bool)
      → (SubscriptionDoc → SubscriptionDoc)
      → Command (Store S) (Option SubscriptionDoc)
  update_subscription id filter update st =
      some (with_subscriptions st (S.subscriptions.update id filter update st.subscriptions))

  -- `StartAt`, or the clock where it is Go's zero time.
  abbrev start_of : Time → Action (Store S) Time
  start_of start = if is_zero start then now else pure start

  unfoldable pub create_subscription : CreateSubscriptionInput → Action (Store S) Subscription
  unfolding onboard_actors
  create_subscription input = if refuses_subscription input then raise invalid_state else (do
    onboard_actors S input.merchant_id input.customer_id
    start ← start_of input.start_at
    t ← now
    id ← new_id "sub"
    exec (insert_subscription (new_subscription id start t input))
    pure (subscription_to_domain (new_subscription id start t input)))

  unfoldable pub cancel_subscription : String → Action (Store S) Subscription
  cancel_subscription id = do
    t ← now
    found ← exec (update_subscription id (λ d. true) (set_cancelled t))
    if_found found (raise not_found) λ d. pure (subscription_to_domain d)

  -- The count of matched documents is not looked at.
  unfoldable pub advance_subscription : String → ℤ → Time → Action (Store S) Unit
  advance_subscription id idx next_charge_at = do
    t ← now
    found ← exec (update_subscription id (is_at_cycle idx) (set_next_cycle idx next_charge_at t))
    pure tt
