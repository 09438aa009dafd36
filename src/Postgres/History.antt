-- ===== src/Postgres/History.antt =====
-- Any sequence of calls of the store's methods, with any outcomes of their commands.
use gripe.Common.{String, List, [], ◌∷◌, ◌≡◌, false}
use gripe.Int.{ℤ, pos, eqb_ℤ}
use gripe.Domain.{Time, Actor, CreatePaymentInput, CreateSubscriptionInput}
use gripe.Exec.{World}
use gripe.Postgres.{Server, Store}
use gripe.Postgres.Create.{create_payment}
use gripe.Postgres.Transitions.{get_payment, capture_payment, settle_payment, settle_network_fee}
use gripe.Postgres.Refunds.{refund_payment, settle_refund}
use gripe.Postgres.Subscriptions.{
  create_subscription, cancel_subscription, due_subscriptions, advance_subscription,
}
use gripe.Postgres.Sound.{IsSound}
use gripe.Postgres.Sound.Create.{create_payment-Triple}
use gripe.Postgres.Sound.Methods.{
  get_payment-Triple, capture_payment-Triple, settle_payment-Triple, settle_network_fee-Triple,
}
use gripe.Postgres.Sound.Refunds.{refund_payment-Triple, settle_refund-Triple}
use gripe.Postgres.Sound.Subscriptions.{
  create_subscription-Triple, cancel_subscription-Triple, due_subscriptions-Triple,
  advance_subscription-Triple,
}

-- The methods of `Store` but for those that only read: the listings, the balances and the reports.
pub data Call : Type 0 where
  create : CreatePaymentInput → String → Call
  get : String → Actor → Call
  capture settle settle_refund_of : String → Call
  network_fee refund : String → ℤ → Call
  create_subscription_of : CreateSubscriptionInput → Call
  cancel_subscription_of : String → Call
  due : Time → ℤ → Call
  advance_of : String → ℤ → Time → Call

-- A network fee that is stored as 0 cannot be told from none.
abbrev pub IsPlain : Call → Type 0
IsPlain (network_fee id fee) = eqb_ℤ fee (pos 0) ≡ false
IsPlain _ = Unit

abbrev pub AllPlain : List Call → Type 0
AllPlain [] = Unit
AllPlain (c ∷ cs) = IsPlain c × AllPlain cs

module _ (S : Server) where
  -- The store after a call, whatever it returned.
  unfoldable pub after : Call → World (Store S) → World (Store S)
  after (create input key) w = (create_payment S input key w).1
  after (get id actor) w = (get_payment S id actor w).1
  after (capture id) w = (capture_payment S id w).1
  after (settle id) w = (settle_payment S id w).1
  after (settle_refund_of id) w = (settle_refund S id w).1
  after (network_fee id fee) w = (settle_network_fee S id fee w).1
  after (refund id amount) w = (refund_payment S id amount w).1
  after (create_subscription_of input) w = (create_subscription S input w).1
  after (cancel_subscription_of id) w = (cancel_subscription S id w).1
  after (due as_of limit) w = (due_subscriptions S as_of limit w).1
  after (advance_of id idx next_charge_at) w = (advance_subscription S id idx next_charge_at w).1

  unfoldable pub serve : List Call → World (Store S) → World (Store S)
  unfolding after
  serve [] w = w
  serve (c ∷ cs) w = serve cs (after c w)

  after-IsSound :
      (c : Call) (w : World (Store S)) → IsPlain c → IsSound S w.db → IsSound S (after c w).db
  unfolding after
  after-IsSound (create input key) w plain h = ((create_payment-Triple S input key).holds w h tt).0
  after-IsSound (get id actor) w plain h = ((get_payment-Triple S id actor).holds w h tt).0
  after-IsSound (capture id) w plain h = ((capture_payment-Triple S id).holds w h tt).0
  after-IsSound (settle id) w plain h = ((settle_payment-Triple S id).holds w h tt).0
  after-IsSound (settle_refund_of id) w plain h = ((settle_refund-Triple S id).holds w h tt).0
  after-IsSound (network_fee id fee) w plain h =
      ((settle_network_fee-Triple S id fee plain).holds w h tt).0
  after-IsSound (refund id amount) w plain h = ((refund_payment-Triple S id amount).holds w h tt).0
  after-IsSound (create_subscription_of input) w plain h =
      ((create_subscription-Triple S input).holds w h tt).0
  after-IsSound (cancel_subscription_of id) w plain h =
      ((cancel_subscription-Triple S id).holds w h tt).0
  after-IsSound (due as_of limit) w plain h =
      ((due_subscriptions-Triple S as_of limit).holds w h tt).0
  after-IsSound (advance_of id idx next_charge_at) w plain h =
      ((advance_subscription-Triple S id idx next_charge_at).holds w h tt).0

  -- From a store whose tables and cache are linked as they should be, whatever methods are called
  -- of CreatePayment, GetPayment, CapturePayment, SettlePayment, SettleNetworkFee, RefundPayment,
  -- SettleRefund, CreateSubscription, CancelSubscription, DueSubscriptions and AdvanceSubscription,
  -- one after another, with no network fee of 0 among the calls, and whatever becomes of their
  -- statements: each payment and each subscription has the rows of its merchant and its customer,
  -- each refund that of its payment, each actor in the cache of actors has its row, so that no
  -- transaction leaves out a row that is needed, and no network fee that is set is 0.
  pub serve-IsSound :
      (cs : List Call) (w : World (Store S))
      → AllPlain cs
      → IsSound S w.db
      → IsSound S (serve cs w).db
  unfolding serve
  serve-IsSound [] w plain h = h
  serve-IsSound (c ∷ cs) w plain h =
      serve-IsSound cs (after c w) plain.1 (after-IsSound c w plain.0 h)
