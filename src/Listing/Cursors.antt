-- ===== src/Listing/Cursors.antt =====
-- store/mongo/store.go and store/postgres/store.go: encodeCursor and decodeCursor, the same in both.
-- JSON and base64 are the library's.
use gripe.Common.{String, ◌≡◌, ◌∙◌, ap, Bool, false, Option, none, some, ◌==◌}
use gripe.Domain.Views.{Cursor}
use gripe.Listing.{PaymentCursor, Codec}
use gripe.Listing.Pages.{IsCodec}

-- json.Marshal and json.Unmarshal of a cursor, and base64.RawURLEncoding; `none` is an error.
pub record Library : Type 0 where
  pub marshal : PaymentCursor → String
  pub unmarshal : String → Option PaymentCursor
  pub encode_to_string : String → String
  pub decode_string : String → Option String

unfoldable pub encode_cursor : Library → PaymentCursor → Cursor
encode_cursor L c = L.encode_to_string (L.marshal c)

abbrev unmarshal_bytes : Library → Option String → Option PaymentCursor
unmarshal_bytes L none = none
unmarshal_bytes L (some b) = L.unmarshal b

unfoldable pub decode_cursor : Library → Cursor → Option PaymentCursor
decode_cursor L c = unmarshal_bytes L (L.decode_string c)

-- The two decoders undo the two encoders, JSON of an object is not empty, and base64 of bytes is empty
-- only where there are none.
pub record IsLibrary (L : Library) : Type 0 where
  pub unmarshal-marshal : (c : PaymentCursor) → L.unmarshal (L.marshal c) ≡ some c
  pub decode-encode : (b : String) → L.decode_string (L.encode_to_string b) ≡ some b
  pub marshal_not_empty : (c : PaymentCursor) → (L.marshal c == "") ≡ false
  pub encode_not_empty : (b : String) → (b == "") ≡ false → (L.encode_to_string b == "") ≡ false

-- The codec of a store.
unfoldable pub codec_of : Library → (String → String → Bool) → Codec
codec_of L id_lt = record { encode = encode_cursor L; decode = decode_cursor L; id_lt = id_lt }

pub decode_cursor-encode_cursor :
    (L : Library) (c : PaymentCursor) → IsLibrary L → decode_cursor L (encode_cursor L c) ≡ some c
unfolding encode_cursor decode_cursor
decode_cursor-encode_cursor L c is =
    ap (unmarshal_bytes L) (is.decode-encode (L.marshal c)) ∙ is.unmarshal-marshal c

-- With a library whose decoders undo its encoders, the cursors of both stores are what following a
-- listing relies on: a cursor decodes to what was encoded, and an encoded cursor is not the empty one
-- that ends a listing.
pub codec_of-IsCodec :
    (L : Library) (id_lt : String → String → Bool) → IsLibrary L → IsCodec (codec_of L id_lt)
unfolding codec_of encode_cursor
codec_of-IsCodec L id_lt is = record {
  round_trip = λ c. decode_cursor-encode_cursor L c is;
  not_empty = λ c. is.encode_not_empty (L.marshal c) (is.marshal_not_empty c);
}
