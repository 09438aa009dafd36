-- ===== src/Mongo/Subscriptions/Due.antt =====
-- store/mongo/store.go: DueSubscriptions.
use gripe.Common.{ℕ, Bool, List, some, ◌&&◌, ◌||◌, leb, ltb, if◌then◌else◌}
use gripe.Int.{ℤ, pos, pos_part, leb_ℤ, ltb_ℤ}
use gripe.Domain.{Time, Subscription, active, subscription_status_eq}
use gripe.Query.{filter, sort, take, map}
use gripe.Exec.{Action, Command, exec, pure, ◌>>=◌}
use gripe.Mongo.{Server, Store, SubscriptionDoc}
use gripe.Mongo.Subscriptions.{subscription_to_domain}

-- A limit that is not positive, or past 500, becomes 100.
abbrev pub due_limit : ℤ → ℕ
due_limit limit = if leb_ℤ limit (pos 0) || ltb_ℤ (pos 500) limit then 100 else pos_part limit

abbrev pub is_due : Time → SubscriptionDoc → Bool
is_due as_of d = subscription_status_eq d.status active && leb d.next_charge_at as_of

abbrev pub is_earlier : SubscriptionDoc → SubscriptionDoc → Bool
is_earlier d e = ltb d.next_charge_at e.next_charge_at

module _ (S : Server) where
  abbrev find_due : Time → ℕ → Command (Store S) (List SubscriptionDoc)
  find_due as_of limit st = some (
    take limit (sort is_earlier (filter (is_due as_of) (S.subscriptions.scan st.subscriptions))),
    st,
  )

  unfoldable pub due_subscriptions : Time → ℤ → Action (Store S) (List Subscription)
  due_subscriptions as_of limit = do
    docs ← exec (find_due as_of (due_limit limit))
    pure (map subscription_to_domain docs)
