-- ===== src/Mongo/History.antt =====
-- Any sequence of calls of the store's methods, with any outcomes of their commands.
use gripe.Common.{String, List, [], ◌∷◌}
use gripe.Int.{ℤ}
use gripe.Domain.{Actor, CreatePaymentInput}
use gripe.Exec.{World}
use gripe.Mongo.{Server, Store}
use gripe.Mongo.Sound.{AllSound}
use gripe.Mongo.Create.{create_payment}
use gripe.Mongo.Create.Sound.{create_payment-AllSound}
use gripe.Mongo.Transitions.{get_payment, capture_payment, settle_payment, settle_network_fee}
use gripe.Mongo.Transitions.Sound.{
  get_payment-AllSound, capture_payment-AllSound, settle_payment-AllSound,
  settle_network_fee-AllSound,
}
use gripe.Mongo.Refunds.{refund_payment, settle_refund}
use gripe.Mongo.Refunds.Sound.{refund_payment-AllSound, settle_refund-AllSound}

-- The methods of `Store` that the payments are reached by.
pub data Call : Type 0 where
  create : CreatePaymentInput → String → Call
  get : String → Actor → Call
  capture settle settle_refund_of : String → Call
  network_fee refund : String → ℤ → Call

module _ (S : Server) where
  -- The store after a call, whatever it returned.
  unfoldable pub after : Call → World (Store S) → World (Store S)
  after (create input key) w = (create_payment S input key w).1
  after (get id actor) w = (get_payment S id actor w).1
  after (capture id) w = (capture_payment S id w).1
  after (settle id) w = (settle_payment S id w).1
  after (settle_refund_of id) w = (settle_refund S id w).1
  after (network_fee id fee) w = (settle_network_fee S id fee w).1
  after (refund id amount) w = (refund_payment S id amount w).1

  unfoldable pub serve : List Call → World (Store S) → World (Store S)
  unfolding after
  serve [] w = w
  serve (c ∷ cs) w = serve cs (after c w)

  after-AllSound : (c : Call) (w : World (Store S)) → AllSound S w.db → AllSound S (after c w).db
  unfolding after
  after-AllSound (create input key) w h = (create_payment-AllSound S input key).stays w h
  after-AllSound (get id actor) w h = (get_payment-AllSound S id actor).stays w h
  after-AllSound (capture id) w h = (capture_payment-AllSound S id).stays w h
  after-AllSound (settle id) w h = (settle_payment-AllSound S id).stays w h
  after-AllSound (settle_refund_of id) w h = (settle_refund-AllSound S id).stays w h
  after-AllSound (network_fee id fee) w h = (settle_network_fee-AllSound S id fee).stays w h
  after-AllSound (refund id amount) w h = (refund_payment-AllSound S id amount).stays w h

  -- From a store whose payments are sound, whatever methods are called and whatever becomes of
  -- their commands, every stored payment is sound: its amount is positive, its refunds are positive,
  -- their sum is the refunded amount and does not pass the amount, and its status is `refunded`
  -- exactly if the sum is the amount.
  pub serve-AllSound :
      (cs : List Call) (w : World (Store S)) → AllSound S w.db → AllSound S (serve cs w).db
  unfolding serve
  serve-AllSound [] w h = h
  serve-AllSound (c ∷ cs) w h = serve-AllSound cs (after c w) (after-AllSound c w h)
