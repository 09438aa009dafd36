-- ===== src/Mongo/Listing/Complete.antt =====
-- A client that follows the cursors of the Mongo store.
use gripe.Common.{
  ℕ, suc, ◌*◌, ◌≤◌, ◌<◌, String, ◌≡◌, refl, ap, ◌∙◌, sym, Bool, true, some, List, ◌==◌, ◌&&◌, arith,
}
use gripe.Domain.Views.{Filters, Cursor, Page}
use gripe.Storage.{matching}
use gripe.Query.{length, drop, get_elem?, filter, sort, map, take, lookup_by}
use gripe.Query.Texts.{IsCollation}
use gripe.Exec.{World, ok, IsCalm, ◌>>=◌, after_command}
use gripe.Listing.{PaymentCursor, Codec, newest_first, list_page_max, to_page, after_cursor}
use gripe.Listing.Pages.{follow, IsCodec, Serves, follow-drop}
use gripe.Listing.Whole.{whole-first, whole-later, lookup_by-whole}
use gripe.Mongo.{Server, Store, PaymentDoc, to_domain}
use gripe.Mongo.Listing.{cursor_of, is_newer, matches, list_payments}

module _ (S : Server) (codec : Codec) (is : IsCodec codec) (collation : IsCollation codec.id_lt)
    (scope : String) (f : Filters) (st : Store S) where
  -- All payments of the store that the filters admit, newest first, without pages.
  abbrev pub admitted : List PaymentDoc
  admitted = sort (is_newer codec) (filter (matches scope f) (S.payments.scan st.payments))

  -- The server answers, and holds these documents.
  abbrev IsServing : World (Store S) → Type 0
  IsServing w = IsCalm w × (w.db ≡ st)

  abbrev Serving : Cursor → List PaymentDoc → Type 0
  Serving = Serves codec cursor_of to_domain (list_payments S codec scope f) IsServing

  abbrev found : (PaymentDoc → Bool) → Page
  found after = to_page codec cursor_of to_domain (
      take (suc list_page_max) (
        sort (is_newer codec)
          (filter (λ d. matches scope f d && after d) (S.payments.scan st.payments))))

  answered_page :
      (cursor : Cursor) (after : PaymentCursor → Bool) (w : World (Store S))
      → after_cursor codec cursor ≡ some after
      → IsServing w
      → list_payments S codec scope f cursor w
        ≡ (ok (found (λ d. after (cursor_of d))), after_command w)
  unfolding list_payments ◌>>=◌
  answered_page cursor after w h (calm, same) = rw (h, calm 0, same) refl

  first_page : Serving "" admitted
  first_page w serving =
      let docs =
        whole-first codec.id_lt collation cursor_of (S.payments.scan st.payments)
          (S.payments.scan_distinct st.payments) (matches scope f) in
      (
        after_command w,
        answered_page "" (λ d. true) w refl serving
            ∙ ap
                (λ ds. (
                  ok (to_page codec cursor_of to_domain (take (suc list_page_max) ds)),
                  after_command w,
                ))
                docs,
        (λ n. serving.0 (suc n), serving.1),
      )

  after_encoded :
      (c : PaymentCursor)
      → after_cursor codec (codec.encode c) ≡ some (λ d. newest_first codec.id_lt c d)
  after_encoded c = rw (is.not_empty c, is.round_trip c)

  later_page :
      (i : ℕ) (c : PaymentDoc)
      → get_elem? admitted i ≡ some c
      → Serving (codec.encode (cursor_of c)) (drop (suc i) admitted)
  later_page i c h w serving =
      let docs =
        whole-later codec.id_lt collation cursor_of (S.payments.scan st.payments)
          (S.payments.scan_distinct st.payments) (matches scope f) i c h in
      (
        after_command w,
        answered_page (codec.encode (cursor_of c)) (λ d. newest_first codec.id_lt (cursor_of c) d) w
              (after_encoded (cursor_of c)) serving
            ∙ ap
                (λ ds. (
                  ok (to_page codec cursor_of to_domain (take (suc list_page_max) ds)),
                  after_command w,
                ))
                docs,
        (λ n. serving.0 (suc n), serving.1),
      )

  -- A client that begins without a cursor and follows the cursors that it gets, while the server
  -- answers and the payments do not change, ends after at most one page for each 50 payments (and
  -- one page where there is none) with every payment that the filters admit, once each and newest
  -- first; a stored payment is among them exactly if the filters admit it.
  pub follow-admitted_mongo :
      (fuel : ℕ) (w : World (Store S))
      → IsCalm w
      → w.db ≡ st
      → 0 < fuel
      → length admitted ≤ 50 * fuel
      → ((follow (list_payments S codec scope f) fuel "" w).0 ≡ ok (some (map to_domain admitted)))
        × ((follow (list_payments S codec scope f) fuel "" w).1.db ≡ st)
        × ((id : String)
            → lookup_by ◌==◌ (λ d. d.id) id admitted
              ≡ matching (matches scope f) (S.payments.find id st.payments))
  unfolding drop sort
  follow-admitted_mongo fuel w calm same some_fuel enough =
      let (w', got, serving) =
        follow-drop codec cursor_of to_domain (list_payments S codec scope f) IsServing is admitted
          later_page fuel 0 "" w first_page (omega arith) some_fuel (calm, same) in
      (
        ap (λ r. r.0) got,
        ap (λ r. r.1.db) got ∙ serving.1,
        λ id.
            lookup_by-whole codec.id_lt collation cursor_of (S.payments.scan st.payments)
              (S.payments.scan_distinct st.payments) (matches scope f) id
            ∙ ap (matching (matches scope f)) (sym (S.payments.find-scan id st.payments)),
      )
