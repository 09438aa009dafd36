-- ===== src/Postgres/Listing.antt =====
-- store/postgres/store.go: listPayments, ListMerchantPayments and ListAllPayments.
pub mod Complete
pub mod Backends
pub mod Tests
pub mod Agreement
use gripe.Common.{
  ℕ, suc, String, Bool, true, false, Option, none, some, List, [], ◌∷◌, ◌++◌, ◌==◌, ◌&&◌, not, leb,
  if◌then◌else◌,
}
use gripe.Int.{pos, leb_ℤ, ltb_ℤ}
use gripe.Domain.{is_zero}
use gripe.Domain.Views.{Filters, Cursor, Page, currency_text, method_text, status_text}
use gripe.Query.{filter, sort, take}
use gripe.Exec.{Action, Command, pure, raise, if_found, invalid_state, ◌>>=◌}
use gripe.Listing.{PaymentCursor, Codec, newest_first, list_page_max, after_cursor, to_page}
use gripe.Postgres.{Server, Store, Tables, PaymentRow, to_payment, pool_exec}

abbrev pub cursor_of : PaymentRow → PaymentCursor
cursor_of r = record { created_at = r.created_at; id = r.id }

abbrev pub is_newer : Codec → PaymentRow → PaymentRow → Bool
is_newer codec r q = newest_first codec.id_lt (cursor_of r) (cursor_of q)

abbrev pub Condition : Type 0
Condition = PaymentRow → Bool

-- `where = append(where, ...)` under an `if`.
unfoldable pub condition_if : Bool → Condition → List Condition
condition_if test c = if test then c ∷ [] else []

unfoldable pub scope_conditions : String → Filters → List Condition
unfolding condition_if
scope_conditions merchant_scope f =
    if not (merchant_scope == "")
    then (λ (r : PaymentRow). r.merchant_id == merchant_scope) ∷ []
    else condition_if (not (f.merchant_id == "")) (λ r. r.merchant_id == f.merchant_id)

-- The conditions, in the order in which they are appended.
unfoldable pub conditions : String → Filters → List Condition
unfolding condition_if scope_conditions
conditions merchant_scope f =
    scope_conditions merchant_scope f
    ++ (condition_if (not (f.status == "")) (λ r. status_text r.status == f.status)
        ++ (condition_if (not (f.method == "")) (λ r. method_text r.method == f.method)
            ++ (condition_if (not (f.currency == "")) (λ r. currency_text r.currency == f.currency)
                ++ (condition_if (not (is_zero f.from_time)) (λ r. leb f.from_time r.created_at)
                    ++ (condition_if (not (is_zero f.to_time)) (λ r. leb r.created_at f.to_time)
                        ++ (condition_if (ltb_ℤ (pos 0) f.min_minor)
                              (λ r. leb_ℤ f.min_minor r.amount_minor)
                            ++ condition_if (ltb_ℤ (pos 0) f.max_minor)
                                (λ r. leb_ℤ r.amount_minor f.max_minor)))))))

-- `WHERE a AND b AND ...`; without conditions, every row.
unfoldable pub all_hold : List Condition → Condition
all_hold [] r = true
all_hold (c ∷ cs) r = c r && all_hold cs r

module _ (S : Server) (codec : Codec) where
  abbrev pub select_payments : Condition → Command (Tables S) (List PaymentRow)
  select_payments q t =
      some (
        take (suc list_page_max) (sort (is_newer codec) (filter q (S.payments.scan t.payments))),
        t,
      )

  -- The cursor's condition comes last.
  unfoldable pub list_payments : String → Filters → Cursor → Action (Store S) Page
  unfolding pool_exec
  list_payments merchant_scope f cursor =
      if_found (after_cursor codec cursor) (raise invalid_state) λ after. do
        rows ←
            pool_exec S (
              select_payments
                (λ r. all_hold (conditions merchant_scope f) r && after (cursor_of r)))
        pure (to_page codec cursor_of to_payment rows)

  unfoldable pub list_merchant_payments : String → Filters → Cursor → Action (Store S) Page
  unfolding list_payments
  list_merchant_payments merchant_id f cursor = list_payments merchant_id f cursor

  unfoldable pub list_all_payments : Filters → Cursor → Action (Store S) Page
  unfolding list_payments
  list_all_payments f cursor = list_payments "" f cursor
