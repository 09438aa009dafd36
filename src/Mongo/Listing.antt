-- ===== src/Mongo/Listing.antt =====
-- store/mongo/store.go: listPayments, ListMerchantPayments and ListAllPayments.
pub mod Complete
pub mod Tests
use gripe.Common.{
  ℕ, suc, String, Bool, true, false, Option, none, some, List, ◌==◌, ◌&&◌, ◌||◌, not, leb,
  if◌then◌else◌,
}
use gripe.Int.{pos, leb_ℤ, ltb_ℤ}
use gripe.Domain.{is_zero}
use gripe.Domain.Views.{Filters, Cursor, Page, currency_text, method_text, status_text}
use gripe.Query.{filter, sort, take}
use gripe.Exec.{Action, Command, exec, pure, raise, if_found, invalid_state, ◌>>=◌}
use gripe.Listing.{PaymentCursor, Codec, newest_first, list_page_max, after_cursor, to_page}
use gripe.Mongo.{Server, Store, PaymentDoc, to_domain}

abbrev pub cursor_of : PaymentDoc → PaymentCursor
cursor_of d = record { created_at = d.created_at; id = d.id }

abbrev pub is_newer : Codec → PaymentDoc → PaymentDoc → Bool
is_newer codec d e = newest_first codec.id_lt (cursor_of d) (cursor_of e)

-- The clauses of the query document: each is there if its filter is set.
abbrev pub in_scope : String → Filters → PaymentDoc → Bool
in_scope merchant_scope f d =
    if not (merchant_scope == "")
    then d.merchant_id == merchant_scope
    else if not (f.merchant_id == "")
    then d.merchant_id == f.merchant_id
    else true

abbrev pub in_period : Filters → PaymentDoc → Bool
in_period f d =
    if not (is_zero f.from_time) || not (is_zero f.to_time)
    then (if not (is_zero f.from_time) then leb f.from_time d.created_at else true)
      && (if not (is_zero f.to_time) then leb d.created_at f.to_time else true)
    else true

abbrev pub in_range : Filters → PaymentDoc → Bool
in_range f d =
    if ltb_ℤ (pos 0) f.min_minor || ltb_ℤ (pos 0) f.max_minor
    then (if ltb_ℤ (pos 0) f.min_minor then leb_ℤ f.min_minor d.amount_minor else true)
      && (if ltb_ℤ (pos 0) f.max_minor then leb_ℤ d.amount_minor f.max_minor else true)
    else true

unfoldable pub matches : String → Filters → PaymentDoc → Bool
matches merchant_scope f d =
    in_scope merchant_scope f d
    && (if not (f.status == "") then status_text d.status == f.status else true)
    && (if not (f.method == "") then method_text d.method == f.method else true)
    && (if not (f.currency == "") then currency_text d.currency == f.currency else true)
    && in_period f d
    && in_range f d

module _ (S : Server) (codec : Codec) where
  abbrev pub find_payments : (PaymentDoc → Bool) → Command (Store S) (List PaymentDoc)
  find_payments q st = some (
    take (suc list_page_max) (sort (is_newer codec) (filter q (S.payments.scan st.payments))),
    st,
  )

  unfoldable pub list_payments : String → Filters → Cursor → Action (Store S) Page
  list_payments merchant_scope f cursor =
      if_found (after_cursor codec cursor) (raise invalid_state) λ after. do
        docs ← exec (find_payments (λ d. matches merchant_scope f d && after (cursor_of d)))
        pure (to_page codec cursor_of to_domain docs)

  unfoldable pub list_merchant_payments : String → Filters → Cursor → Action (Store S) Page
  unfolding list_payments
  list_merchant_payments merchant_id f cursor = list_payments merchant_id f cursor

  unfoldable pub list_all_payments : Filters → Cursor → Action (Store S) Page
  unfolding list_payments
  list_all_payments f cursor = list_payments "" f cursor
