-- ===== src/Listing/Whole.antt =====
-- The queries of the pages, against the query of the whole listing.
use gripe.Common.{
  ℕ, suc, String, ◌≡◌, ◌∙◌, sym, refl, ap, Bool, true, some, List, [], ◌∷◌, ◌==◌, ◌&&◌, arith,
  eq_iff,
}
use gripe.Storage.{matching}
use gripe.Query.{filter, sort, drop, get_elem?, lookup_by, IsDistinct}
use gripe.Query.Sorted.{filter-filter, filter-sort}
use gripe.Query.Keyed.{lookup_by-filter, lookup_by-sort, filter-IsDistinct, sort-IsStrict}
use gripe.Query.Pages.{filter-after}
use gripe.Query.Texts.{IsCollation}
use gripe.Listing.{PaymentCursor, newest_first}
use gripe.Listing.Order.{newest_first-IsOrder, newest_first-total}

module _ {A : Type 0} where
  filter-and_true : (p : A → Bool) (xs : List A) → filter (λ x. p x && true) xs ≡ filter p xs
  unfolding filter
  filter-and_true p [] = refl
  filter-and_true p (x ∷ xs) = ground (arith, filter-and_true p xs)

module _ {A : Type 0} (lt : String → String → Bool) (collation : IsCollation lt)
    (at : A → PaymentCursor) (xs : List A) (distinct : IsDistinct ◌==◌ (λ a. (at a).id) xs)
    (q : A → Bool) where
  abbrev before : A → A → Bool
  before a b = newest_first lt (at a) (at b)

  -- What the filter admits, newest first.
  abbrev pub whole : List A
  whole = sort before (filter q xs)

  pub whole-first : sort before (filter (λ a. q a && true) xs) ≡ whole
  whole-first = ap (sort before) (filter-and_true q xs)

  pub whole-later :
      (i : ℕ) (c : A)
      → get_elem? whole i ≡ some c
      → sort before (filter (λ a. q a && before c a) xs) ≡ drop (suc i) whole
  whole-later i c h =
      let o = newest_first-IsOrder lt collation at in
      let chosen = filter-IsDistinct ◌==◌ (λ a. (at a).id) eq_iff q xs distinct in
      let strict =
        sort-IsStrict ◌==◌ (λ a. (at a).id) eq_iff before o
          (λ a b. newest_first-total lt collation (at a) (at b)) (filter q xs) chosen in
      ap (sort before) (sym (filter-filter (before c) q xs))
      ∙ sym (filter-sort before o (before c) (filter q xs))
      ∙ filter-after before o whole i c strict h

  -- The listing has each document that the filter admits, and no other.
  pub lookup_by-whole :
      (k : String)
      → lookup_by ◌==◌ (λ a. (at a).id) k whole ≡ matching q (lookup_by ◌==◌ (λ a. (at a).id) k xs)
  lookup_by-whole k =
      let chosen = filter-IsDistinct ◌==◌ (λ a. (at a).id) eq_iff q xs distinct in
      lookup_by-sort ◌==◌ (λ a. (at a).id) eq_iff before k (filter q xs) chosen
      ∙ lookup_by-filter ◌==◌ (λ a. (at a).id) eq_iff q k xs distinct
