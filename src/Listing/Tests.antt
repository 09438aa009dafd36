-- ===== src/Listing/Tests.antt =====
-- A codec of cursors on which the listings can be run: the time in strokes, and then the id.
use Prim.Native.Char.{Char, code}
use Prim.Native.String.{[], ◌∷◌}
use gripe.Common.{
  ℕ, zero, suc, String, ◌≡◌, refl, Option, none, some, ◌==◌, Bool, true, false, ap, arith, eqb,
  eq_iff, Bool-cases, inl, inr, if◌then◌else◌,
}
use gripe.Domain.Views.{Cursor}
use gripe.Query.Texts.{text_ltb}
use gripe.Listing.{PaymentCursor, Codec}
use gripe.Listing.Pages.{IsCodec}

unfoldable pub strokes : ℕ → String → Cursor
strokes zero id = "." ∷ id
strokes (suc n) id = "|" ∷ strokes n id

abbrev later : Option PaymentCursor → Option PaymentCursor
later none = none
later (some c) = some (record c { created_at = suc c.created_at })

unfoldable pub read : Cursor → Option PaymentCursor
read [] = none
read (c ∷ s) =
    let rest = read s in
    if eqb (code c) 124 then later rest else some (record { created_at = 0; id = s })

abbrev pub codec : Codec
codec = record { encode = λ c. strokes c.created_at c.id; decode = read; id_lt = text_ltb }

read-strokes :
    (n : ℕ) (id : String) → read (strokes n id) ≡ some (record { created_at = n; id = id })
unfolding read strokes
read-strokes zero id = refl
read-strokes (suc n) id = rw (read-strokes n id) refl

abbrev begins : String → Bool
begins [] = false
begins (c ∷ s) = true

cons-not_empty : (c : Char) (s : String) → (c ∷ s == "") ≡ false
cons-not_empty c s = elim (Bool-cases (c ∷ s == "")) [
  | inl e ↦ absurd (let same : true ≡ false = ap begins ((eq_iff (c ∷ s) "").0 e) in ground arith)
  | inr e ↦ e
]

strokes-not_empty : (n : ℕ) (id : String) → (strokes n id == "") ≡ false
unfolding strokes
strokes-not_empty zero id = cons-not_empty "." id
strokes-not_empty (suc n) id = cons-not_empty "|" (strokes n id)

pub codec-IsCodec : IsCodec codec
codec-IsCodec = record {
  round_trip = λ c. read-strokes c.created_at c.id;
  not_empty = λ c. strokes-not_empty c.created_at c.id;
}
