-- ===== src/Postgres/Listing/Complete.antt =====
-- A client that follows the cursors of the PostgreSQL store.
use gripe.Common.{
  ℕ, suc, ◌*◌, ◌≤◌, ◌<◌, String, ◌≡◌, refl, ap, ◌∙◌, sym, Bool, true, some, List, ◌==◌, ◌&&◌, arith,
}
use gripe.Domain.Views.{Filters, Cursor, Page}
use gripe.Storage.{matching}
use gripe.Query.{length, drop, get_elem?, filter, sort, map, take, lookup_by}
use gripe.Query.Texts.{IsCollation}
use gripe.Exec.{World, ok, IsCalm, ◌>>=◌, after_command}
use gripe.Listing.{PaymentCursor, Codec, newest_first, list_page_max, to_page, after_cursor}
use gripe.Listing.Pages.{follow, IsCodec, Serves, follow-drop}
use gripe.Listing.Whole.{whole-first, whole-later, lookup_by-whole}
use gripe.Postgres.{Server, Store, PaymentRow, to_payment}
use gripe.Postgres.Listing.{cursor_of, is_newer, conditions, all_hold, list_payments}

-- What the conditions of a listing admit.
abbrev pub admits : String → Filters → PaymentRow → Bool
admits s g r = all_hold (conditions s g) r

module _ (S : Server) (codec : Codec) (is : IsCodec codec) (collation : IsCollation codec.id_lt)
    (scope : String) (f : Filters) (st : Store S) where
  -- All payments of the store that the filters admit, newest first, without pages.
  abbrev pub admitted : List PaymentRow
  admitted = sort (is_newer codec) (filter (admits scope f) (S.payments.scan st.tables.payments))

  -- The server answers, and holds these documents.
  abbrev IsServing : World (Store S) → Type 0
  IsServing w = IsCalm w × (w.db ≡ st)

  abbrev Serving : Cursor → List PaymentRow → Type 0
  Serving = Serves codec cursor_of to_payment (list_payments S codec scope f) IsServing

  abbrev found : (PaymentRow → Bool) → Page
  found after = to_page codec cursor_of to_payment (
      take (suc list_page_max) (
        sort (is_newer codec)
          (filter (λ r. admits scope f r && after r) (S.payments.scan st.tables.payments))))

  answered_page :
      (cursor : Cursor) (after : PaymentCursor → Bool) (w : World (Store S))
      → after_cursor codec cursor ≡ some after
      → IsServing w
      → list_payments S codec scope f cursor w
        ≡ (ok (found (λ d. after (cursor_of d))), after_command w)
  unfolding list_payments ◌>>=◌
  answered_page cursor after w h (calm, same) = rw (h, calm 0, same) refl

  first_page : Serving "" admitted
  first_page w serving =
      let docs =
        whole-first codec.id_lt collation cursor_of (S.payments.scan st.tables.payments)
          (S.payments.scan_distinct st.tables.payments) (admits scope f) in
      (
        after_command w,
        answered_page "" (λ d. true) w refl serving
            ∙ ap
                (λ ds. (
                  ok (to_page codec cursor_of to_payment (take (suc list_page_max) ds)),
                  after_command w,
                ))
                docs,
        (λ n. serving.0 (suc n), serving.1),
      )

  after_encoded :
      (c : PaymentCursor)
      → after_cursor codec (codec.encode c) ≡ some (λ d. newest_first codec.id_lt c d)
  after_encoded c = rw (is.not_empty c, is.round_trip c)

  later_page :
      (i : ℕ) (c : PaymentRow)
      → get_elem? admitted i ≡ some c
      → Serving (codec.encode (cursor_of c)) (drop (suc i) admitted)
  later_page i c h w serving =
      let docs =
        whole-later codec.id_lt collation cursor_of (S.payments.scan st.tables.payments)
          (S.payments.scan_distinct st.tables.payments) (admits scope f) i c h in
      (
        after_command w,
        answered_page (codec.encode (cursor_of c)) (λ d. newest_first codec.id_lt (cursor_of c) d) w
              (after_encoded (cursor_of c)) serving
            ∙ ap
                (λ ds. (
                  ok (to_page codec cursor_of to_payment (take (suc list_page_max) ds)),
                  after_command w,
                ))
                docs,
        (λ n. serving.0 (suc n), serving.1),
      )

  -- A client that begins without a cursor and follows the cursors that it gets, while the server
  -- answers and the payments do not change, ends after at most one page for each 50 payments (and
  -- one page where there is none) with every payment that the filters admit, once each and newest
  -- first; a stored payment is among them exactly if the filters admit it.
  pub follow-admitted_postgres :
      (fuel : ℕ) (w : World (Store S))
      → IsCalm w
      → w.db ≡ st
      → 0 < fuel
      → length admitted ≤ 50 * fuel
      → ((follow (list_payments S codec scope f) fuel "" w).0 ≡ ok (some (map to_payment admitted)))
        × ((follow (list_payments S codec scope f) fuel "" w).1.db ≡ st)
        × ((id : String)
            → lookup_by ◌==◌ (λ r. r.id) id admitted
              ≡ matching (admits scope f) (S.payments.find id st.tables.payments))
  unfolding drop sort
  follow-admitted_postgres fuel w calm same some_fuel enough =
      let (w', got, serving) =
        follow-drop codec cursor_of to_payment (list_payments S codec scope f) IsServing is admitted
          later_page fuel 0 "" w first_page (omega arith) some_fuel (calm, same) in
      (
        ap (λ r. r.0) got,
        ap (λ r. r.1.db) got ∙ serving.1,
        λ id.
            lookup_by-whole codec.id_lt collation cursor_of (S.payments.scan st.tables.payments)
              (S.payments.scan_distinct st.tables.payments) (admits scope f) id
            ∙ ap (matching (admits scope f)) (sym (S.payments.find-scan id st.tables.payments)),
      )
