-- ===== src/Listing.antt =====
-- What listPayments of both stores share: the cursor, the order and the cut into pages. JSON with
-- base64 and the order of ids in the database are parameters.
pub mod Pages
pub mod Cursors
pub mod Order
pub mod Whole
pub mod Tests
use gripe.Common.{
  ℕ, suc, String, ◌≡◌, Bool, true, false, Option, none, some, List, [], ◌∷◌, ◌==◌, ◌&&◌, ◌||◌, ltb,
  eqb, if◌then◌else◌,
}
use gripe.Domain.{Time, Payment}
use gripe.Domain.Views.{Cursor, Page}
use gripe.Query.{take, map, get_elem?}

pub record PaymentCursor : Type 0 where
  pub created_at : Time
  pub id : String

-- encodeCursor and decodeCursor, and the order of ids in the database.
pub record Codec : Type 0 where
  pub encode : PaymentCursor → Cursor
  pub decode : Cursor → Option PaymentCursor
  pub id_lt : String → String → Bool

-- Newest first, and among equal times the greater id first.
abbrev pub newest_first : (String → String → Bool) → PaymentCursor → PaymentCursor → Bool
newest_first id_lt c d =
    ltb d.created_at c.created_at || (eqb d.created_at c.created_at && id_lt d.id c.id)

abbrev pub list_page_max : ℕ
list_page_max = 50

-- What a cursor adds to the filter; `none` is a cursor that does not decode.
abbrev pub after_cursor : Codec → Cursor → Option (PaymentCursor → Bool)
after_cursor codec cursor = if cursor == "" then some (λ d. true) else (elim (codec.decode cursor) [
  | none ↦ none
  | some c ↦ some (λ d. newest_first codec.id_lt c d)
])

-- One document more than a page was asked for: if it is there, the page's last document gives the
-- cursor.
abbrev pub next_cursor : {A : Type 0} → Codec → (A → PaymentCursor) → List A → Cursor
next_cursor codec at docs = elim (get_elem? docs list_page_max) [
  | none ↦ ""
  | some more ↦ (elim (get_elem? docs 49) [ none ↦ "" | some last ↦ codec.encode (at last) ])
]

unfoldable pub to_page : {A : Type 0} → Codec → (A → PaymentCursor) → (A → Payment) → List A → Page
to_page codec at to_payment docs = record {
  items = map to_payment (take list_page_max docs);
  next_cursor = next_cursor codec at docs;
}
