-- ===== src/Listing/Order.antt =====
-- The order of the listing, from the order of ids in the database.
use gripe.Common.{String, ◌≡◌, Bool, true, false, ◌==◌, arith, eq_iff}
use gripe.Query.{IsOrder}
use gripe.Query.Texts.{IsCollation}
use gripe.Listing.{PaymentCursor, newest_first}

module _ (lt : String → String → Bool) (collation : IsCollation lt) where
  newest_first-asymmetric :
      (c d : PaymentCursor) → newest_first lt c d ≡ true → newest_first lt d c ≡ false
  newest_first-asymmetric c d h = ground (arith, collation.asymmetric d.id c.id)

  newest_first-transitive :
      (a b c : PaymentCursor)
      → newest_first lt b a ≡ false
      → newest_first lt c b ≡ false
      → newest_first lt c a ≡ false
  newest_first-transitive a b c h k = ground (arith, collation.transitive c.id b.id a.id)

  -- The transitivity of the order itself, on ids.
  pub newest_first-IsOrder :
      {A : Type 0} (at : A → PaymentCursor) → IsOrder (λ (a b : A). newest_first lt (at a) (at b))
  newest_first-IsOrder at = record {
    asymmetric = λ a b. newest_first-asymmetric (at a) (at b);
    transitive = λ a b c. newest_first-transitive (at a) (at b) (at c);
  }

  pub newest_first-total :
      (c d : PaymentCursor)
      → newest_first lt c d ≡ false
      → newest_first lt d c ≡ false
      → (c.id == d.id) ≡ true
  newest_first-total c d h k = ground (arith, collation.total c.id d.id, eq_iff c.id d.id)
