-- ===== src/Mongo/Subscriptions/Cycle.antt =====
-- AdvanceSubscription on a subscription that is at the cycle, or past it.
use gripe.Common.{String, ◌≡◌, true, false, some, arith}
use gripe.Int.{ℤ, eqb_ℤ}
use gripe.Domain.{Time}
use gripe.Exec.{World, ok, err, driver, refused, ◌>>=◌}
use gripe.Mongo.{Server, Store, SubscriptionDoc}
use gripe.Mongo.Subscriptions.{is_at_cycle, set_next_cycle, advance_subscription}

module _ (S : Server) where
  -- An advance that returns has moved the subscription, if it was at the cycle, and nothing else.
  pub advance_subscription-moves :
      (id : String) (idx : ℤ) (t : Time) (d : SubscriptionDoc) (w w' : World (Store S))
      → S.subscriptions.find id w.db.subscriptions ≡ some d
      → eqb_ℤ d.next_cycle_idx idx ≡ true
      → advance_subscription S id idx t w ≡ (ok tt, w')
      → (w'.db.payments ≡ w.db.payments)
        × (S.subscriptions.find id w'.db.subscriptions
            ≡ some (set_next_cycle idx t (w.readings 0) d))
  unfolding advance_subscription ◌>>=◌
  advance_subscription-moves id idx t d w w' e at h =
      let set = set_next_cycle idx t (w.readings 0) in
      let moved = S.subscriptions.update_lem id (is_at_cycle idx) set w.db.subscriptions in
      let put = S.subscriptions.find-write (set d) id w.db.subscriptions in
      let key = S.subscriptions.find-key id d w.db.subscriptions e in ground arith

  -- At another cycle nothing changes, whatever becomes of the command.
  pub advance_subscription-stays :
      (id : String) (idx : ℤ) (t : Time) (d : SubscriptionDoc) (w : World (Store S))
      → S.subscriptions.find id w.db.subscriptions ≡ some d
      → eqb_ℤ d.next_cycle_idx idx ≡ false
      → (advance_subscription S id idx t w).1.db ≡ w.db
  unfolding advance_subscription ◌>>=◌
  advance_subscription-stays id idx t d w e past =
      let kept =
        S.subscriptions.update_lem id (is_at_cycle idx) (set_next_cycle idx t (w.readings 0))
          w.db.subscriptions in
      ground arith

  pub advance_subscription-payments :
      (id : String) (idx : ℤ) (t : Time) (w : World (Store S))
      → (advance_subscription S id idx t w).1.db.payments ≡ w.db.payments
  unfolding advance_subscription ◌>>=◌
  advance_subscription-payments id idx t w = ground arith

  pub advance_subscription-refused :
      (id : String) (idx : ℤ) (t : Time) (w : World (Store S))
      → w.outcomes 0 ≡ refused
      → ((advance_subscription S id idx t w).0 ≡ err driver)
        × ((advance_subscription S id idx t w).1.db ≡ w.db)
  unfolding advance_subscription ◌>>=◌
  advance_subscription-refused id idx t w cut = ground arith
