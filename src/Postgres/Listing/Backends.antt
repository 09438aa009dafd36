-- ===== src/Postgres/Listing/Backends.antt =====
-- One page on the two stores.
use gripe.Common.{
  suc, String, Bool, List, [], ◌∷◌, ◌≡◌, ◌∙◌, sym, ap, refl, arith, ◌==◌, ◌&&◌, Option-cases, inl,
  inr, eq_iff,
}
use mathlib.Core.Option
use gripe.Storage.{matching}
use gripe.Domain.{Payment}
use gripe.Domain.Views.{Filters, Cursor}
use gripe.Query.{take, map, filter, sort, lookup_by, IsDistinct}
use gripe.Query.Keyed.{
  lookup_by-filter, lookup_by-sort, filter-IsDistinct, sort-IsDistinct, sort-IsStrict,
}
use gripe.Query.Mapped.{
  map-filter, map-sort, map-take, get_elem?-map, map-IsDistinct, lookup_by-map,
}
use gripe.Query.Unique.{lookup_by-determines}
use gripe.Query.Texts.{IsCollation}
use gripe.Exec.{World, ok, answered, ◌>>=◌}
use gripe.Listing.{
  PaymentCursor, Codec, newest_first, list_page_max, after_cursor, next_cursor, to_page,
}
use gripe.Listing.Order.{newest_first-IsOrder, newest_first-total}
use gripe.Mongo
use gripe.Mongo.{PaymentDoc}
use gripe.Mongo.Listing as MongoListing
use gripe.Mongo.Listing.{matches}
use gripe.Postgres
use gripe.Postgres.{PaymentRow, pool_exec}
use gripe.Postgres.Listing as PostgresListing
use gripe.Postgres.Listing.{conditions, all_hold}
use gripe.Postgres.Listing.Agreement.{wanted, matches-wanted, all_hold-wanted}

abbrev at : Payment → PaymentCursor
at p = record { created_at = p.created_at; id = p.id }

abbrev same : Payment → Payment
same p = p

map-same : (ps : List Payment) → map same ps ≡ ps
unfolding map
map-same [] = refl
map-same (p ∷ ps) = ap (◌∷◌ p) (map-same ps)

module _ (codec : Codec) where
  -- A page depends on the documents by the payments that they stand for.
  to_page-map :
      {A : Type 0} (f : A → Payment) (xs : List A)
      → to_page codec (λ a. at (f a)) f xs ≡ to_page codec at same (map f xs)
  unfolding to_page
  to_page-map f xs =
      let items = map-take f list_page_max xs ∙ sym (map-same (take list_page_max (map f xs))) in
      let last = get_elem?-map f xs 49 in
      let extra = get_elem?-map f xs list_page_max in
      let cursor : next_cursor codec (λ a. at (f a)) xs ≡ next_cursor codec at (map f xs) =
        ground arith in
      λ i. record { items = items i; next_cursor = cursor i }

  abbrev before : Payment → Payment → Bool
  before p q = newest_first codec.id_lt (at p) (at q)

  -- The page of a query is the page of that query on payments.
  query-map :
      {A : Type 0} (f : A → Payment) (p : A → Bool) (q : Payment → Bool) (xs : List A)
      → ((a : A) → p a ≡ q (f a))
      → to_page codec
          (λ a. at (f a))
          f
          (take (suc list_page_max) (sort (λ a b. before (f a) (f b)) (filter p xs)))
        ≡ to_page codec at same (take (suc list_page_max) (sort before (filter q (map f xs))))
  query-map f p q xs h =
      to_page-map f (take (suc list_page_max) (sort (λ a b. before (f a) (f b)) (filter p xs)))
      ∙ ap (to_page codec at same) (
          map-take f (suc list_page_max) (sort (λ a b. before (f a) (f b)) (filter p xs))
          ∙ ap (take (suc list_page_max))
              (map-sort f before (filter p xs) ∙ ap (sort before) (map-filter f p q xs h)))

  module _ (collation : IsCollation codec.id_lt) where
    -- The sorted payments are determined by which payment each id has.
    sorted-determined :
        (q : Payment → Bool) (ps qs : List Payment)
        → IsDistinct ◌==◌ (λ p. p.id) ps
        → IsDistinct ◌==◌ (λ p. p.id) qs
        → ((k : String) → lookup_by ◌==◌ (λ p. p.id) k ps ≡ lookup_by ◌==◌ (λ p. p.id) k qs)
        → sort before (filter q ps) ≡ sort before (filter q qs)
    sorted-determined q ps qs d c h =
        let o = newest_first-IsOrder codec.id_lt collation at in
        let total = λ (a b : Payment). newest_first-total codec.id_lt collation (at a) (at b) in
        let key = λ (p : Payment). p.id in
        let d' = filter-IsDistinct ◌==◌ key eq_iff q ps d in
        let c' = filter-IsDistinct ◌==◌ key eq_iff q qs c in
        lookup_by-determines ◌==◌ key eq_iff before o.asymmetric (sort before (filter q ps))
          (sort before (filter q qs))
          (sort-IsStrict ◌==◌ key eq_iff before o total (filter q ps) d')
          (sort-IsStrict ◌==◌ key eq_iff before o total (filter q qs) c')
          (sort-IsDistinct ◌==◌ key eq_iff before (filter q ps) d')
          (sort-IsDistinct ◌==◌ key eq_iff before (filter q qs) c')
          (λ k.
            lookup_by-sort ◌==◌ key eq_iff before k (filter q ps) d'
            ∙ lookup_by-filter ◌==◌ key eq_iff q k ps d
            ∙ ap (matching q) (h k)
            ∙ sym (
                lookup_by-sort ◌==◌ key eq_iff before k (filter q qs) c'
                ∙ lookup_by-filter ◌==◌ key eq_iff q k qs c))

    module _ (SM : Mongo.Server) (SP : Postgres.Server) where
      -- Where both servers answer and each id has the same payment on the two stores, or none on both,
      -- the two stores return the same page, with the same next cursor, for the same scope, filters and
      -- cursor, and refuse the same cursors.
      pub list_payments-backends :
          (scope : String) (f : Filters) (cursor : Cursor) (w : World (Mongo.Store SM))
          (v : World (Postgres.Store SP))
          → w.outcomes 0 ≡ answered
          → v.outcomes 0 ≡ answered
          → ((id : String)
              → Option.map Mongo.to_domain (SM.payments.find id w.db.payments)
                ≡ Option.map Postgres.to_payment (SP.payments.find id v.db.tables.payments))
          → (MongoListing.list_payments SM codec scope f cursor w).0
            ≡ (PostgresListing.list_payments SP codec scope f cursor v).0
      unfolding MongoListing.list_payments PostgresListing.list_payments pool_exec ◌>>=◌
      list_payments-backends scope f cursor w v answer answer' stored =
          let ds = SM.payments.scan w.db.payments in
          let rs = SP.payments.scan v.db.tables.payments in
          let lookups : (k : String)
              → lookup_by ◌==◌ (λ p. p.id) k (map Mongo.to_domain ds)
                ≡ lookup_by ◌==◌ (λ p. p.id) k (map Postgres.to_payment rs) =
            λ k.
              lookup_by-map Mongo.to_domain ◌==◌ (λ p. p.id) k ds
              ∙ ap (Option.map Mongo.to_domain) (sym (SM.payments.find-scan k w.db.payments))
              ∙ stored k
              ∙ ap (Option.map Postgres.to_payment) (SP.payments.find-scan k v.db.tables.payments)
              ∙ sym (lookup_by-map Postgres.to_payment ◌==◌ (λ p. p.id) k rs) in
          elim (Option-cases (after_cursor codec cursor)) [
            | inl bad ↦ rw bad refl
            | inr (after, good) ↦
                let q : Payment → Bool = λ p. wanted scope f p && after (at p) in
                let page =
                  query-map Mongo.to_domain
                    (λ (d : PaymentDoc). matches scope f d && after (at (Mongo.to_domain d))) q ds
                    (λ d. ap (λ b. b && after (at (Mongo.to_domain d))) (matches-wanted scope f d))
                  ∙ ap (λ ps. to_page codec at same (take (suc list_page_max) ps))
                      (sorted-determined q (map Mongo.to_domain ds) (map Postgres.to_payment rs)
                        (map-IsDistinct Mongo.to_domain ◌==◌ (λ p. p.id) ds
                          (SM.payments.scan_distinct w.db.payments))
                        (map-IsDistinct Postgres.to_payment ◌==◌ (λ p. p.id) rs
                          (SP.payments.scan_distinct v.db.tables.payments))
                        lookups)
                  ∙ sym (
                      query-map Postgres.to_payment
                        (λ (r : PaymentRow).
                          all_hold (conditions scope f) r && after (at (Postgres.to_payment r)))
                        q rs
                        (λ r.
                          ap (λ b. b && after (at (Postgres.to_payment r)))
                            (all_hold-wanted r scope f))) in
                rw (good, answer, answer') (ap (λ p. ok p) page)
          ]
