-- ===== src/Cycler/Batches.antt =====
-- Tick over the Mongo store: what it takes up, and how many it can charge.
use gripe.Common.{
  ℕ, zero, suc, ◌≤◌, String, ◌≡◌, ◌∙◌, sym, refl, ap, List, [], ◌∷◌, ◌==◌, arith, eq_iff,
}
use gripe.Int.{ℤ}
use gripe.Domain.{Time}
use gripe.Storage.{matching}
use gripe.Query.{length, take, map, filter, sort, IsOrder, IsSorted, lookup_by}
use gripe.Query.Sorted.{sort-IsSorted}
use gripe.Query.Keyed.{lookup_by-filter, lookup_by-sort, filter-IsDistinct}
use gripe.Exec.{World, ok, answered, ◌>>=◌, after_command}
use gripe.Mongo.{Server, Store, SubscriptionDoc}
use gripe.Mongo.Subscriptions.{subscription_to_domain}
use gripe.Mongo.Subscriptions.Due.{due_limit, is_due, is_earlier, due_subscriptions}

is_earlier-IsOrder : IsOrder is_earlier
is_earlier-IsOrder = record {
  asymmetric = λ a b h. ground arith;
  transitive = λ a b c h k. ground arith;
}

due_limit-le : (limit : ℤ) → due_limit limit ≤ 500
due_limit-le limit = ground arith

length-take : {A : Type 0} (n : ℕ) (xs : List A) → length (take n xs) ≤ n
unfolding length take
length-take zero xs = omega arith
length-take (suc n) [] = omega arith
length-take (suc n) (x ∷ xs) = omega (arith, length-take n xs)

length-map : {A B : Type 0} (f : A → B) (xs : List A) → length (map f xs) ≡ length xs
unfolding length map
length-map f [] = refl
length-map f (x ∷ xs) = ap suc (length-map f xs)

module _ (S : Server) where
  -- Every active subscription that is due, the longest due first.
  abbrev pub all_due : Time → Store S → List SubscriptionDoc
  all_due as_of st = sort is_earlier (filter (is_due as_of) (S.subscriptions.scan st.subscriptions))

  -- Where the server answers, DueSubscriptions returns the first of all subscriptions that are active
  -- and due, as many as the limit allows and never more than 500, ordered by when they fell due; a
  -- stored subscription is among all these exactly if it is active and due; nothing changes.
  pub due_subscriptions-all_due :
      (as_of : Time) (limit : ℤ) (w : World (Store S))
      → w.outcomes 0 ≡ answered
      → (due_subscriptions S as_of limit w ≡ (
        ok (map subscription_to_domain (take (due_limit limit) (all_due as_of w.db))),
        after_command w,
      ))
        × (due_limit limit ≤ 500)
        × IsSorted is_earlier (all_due as_of w.db)
        × ((id : String)
            → lookup_by ◌==◌ (λ d. d.id) id (all_due as_of w.db)
              ≡ matching (is_due as_of) (S.subscriptions.find id w.db.subscriptions))
  unfolding due_subscriptions ◌>>=◌
  due_subscriptions-all_due as_of limit w answer =
      let docs = S.subscriptions.scan w.db.subscriptions in
      let distinct = S.subscriptions.scan_distinct w.db.subscriptions in
      let chosen =
        filter-IsDistinct ◌==◌ (λ (d : SubscriptionDoc). d.id) eq_iff (is_due as_of) docs
          distinct in
      (
        rw answer,
        due_limit-le limit,
        sort-IsSorted is_earlier is_earlier-IsOrder (filter (is_due as_of) docs),
        λ id.
            lookup_by-sort ◌==◌ (λ (d : SubscriptionDoc). d.id) eq_iff is_earlier id
              (filter (is_due as_of) docs) chosen
            ∙ lookup_by-filter ◌==◌ (λ (d : SubscriptionDoc). d.id) eq_iff (is_due as_of) id docs
                distinct
            ∙ ap (matching (is_due as_of)) (sym (S.subscriptions.find-scan id w.db.subscriptions)),
      )
