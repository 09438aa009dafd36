-- ===== src/Reports/Rows.antt =====
-- One row for each group.
use gripe.Common.{◌≡◌, Bool, true, false, List, [], ◌∷◌, ◌↔◌, Bool-cases, inl, inr, String}
use gripe.Int.{ℤ}
use gripe.Domain.{Currency, currency_eq}
use gripe.Domain.Equality.{currency_eq_iff}
use gripe.Domain.Views.{CurrencyTotal}
use gripe.Query.{All, map, IsDistinct}
use gripe.Query.Mapped.{map-IsDistinct}
use gripe.Query.Keyed.{sort-IsDistinct}
use gripe.Reports.{
  Group, add_to_group, group, VolumeKey, volume_key_eq, volume_row, currency_total,
  is_before_volume, is_before_total, volume_rows, revenue_rows,
}
use gripe.Reports.Totals.{volume_key_eq_iff, key_of}

module _ {K : Type 0} (eq : K → K → Bool) (iff : (j k : K) → (eq j k ≡ true) ↔ (j ≡ k)) where
  All-add_to_group :
      (j k : K) (n : ℤ) (gs : List (Group K))
      → eq j k ≡ false
      → All (λ g. eq j g.key ≡ false) gs
      → All (λ g. eq j g.key ≡ false) (add_to_group eq k n gs)
  unfolding add_to_group
  All-add_to_group j k n [] ne h = (ne, tt)
  All-add_to_group j k n (g ∷ gs) ne h = elim (Bool-cases (eq g.key k)) [
    | inl e ↦ rw e h
    | inr e ↦ rw e (h.0, All-add_to_group j k n gs ne h.1)
  ]

  add_to_group-IsDistinct :
      (k : K) (n : ℤ) (gs : List (Group K))
      → IsDistinct eq (λ g. g.key) gs
      → IsDistinct eq (λ g. g.key) (add_to_group eq k n gs)
  unfolding add_to_group
  add_to_group-IsDistinct k n [] d = (tt, tt)
  add_to_group-IsDistinct k n (g ∷ gs) d = elim (Bool-cases (eq g.key k)) [
    | inl e ↦ rw e d
    | inr e ↦ rw e (All-add_to_group g.key k n gs e d.0, add_to_group-IsDistinct k n gs d.1)
  ]

  group-IsDistinct :
      {A : Type 0} (key : A → K) (amount : A → ℤ) (xs : List A)
      → IsDistinct eq (λ g. g.key) (group eq key amount xs)
  unfolding group
  group-IsDistinct key amount [] = tt
  group-IsDistinct key amount (x ∷ xs) =
      add_to_group-IsDistinct (key x) (amount x) (group eq key amount xs)
        (group-IsDistinct key amount xs)

module _ (text_lt : String → String → Bool) {A : Type 0} where
  pub volume_rows-IsDistinct :
      (key : A → VolumeKey) (amount : A → ℤ) (xs : List A)
      → IsDistinct volume_key_eq key_of (volume_rows text_lt key amount xs)
  unfolding volume_rows
  volume_rows-IsDistinct key amount xs =
      let groups = group volume_key_eq key amount xs in
      sort-IsDistinct volume_key_eq key_of volume_key_eq_iff (is_before_volume text_lt)
        (map volume_row groups)
        (map-IsDistinct volume_row volume_key_eq key_of groups
          (group-IsDistinct volume_key_eq volume_key_eq_iff key amount xs))

  pub revenue_rows-IsDistinct :
      (key : A → Currency) (amount : A → ℤ) (xs : List A)
      → IsDistinct currency_eq (λ r. r.currency) (revenue_rows text_lt key amount xs)
  unfolding revenue_rows
  revenue_rows-IsDistinct key amount xs =
      let groups = group currency_eq key amount xs in
      sort-IsDistinct currency_eq (λ (r : CurrencyTotal). r.currency) currency_eq_iff
        (is_before_total text_lt) (map currency_total groups)
        (map-IsDistinct currency_total currency_eq (λ r. r.currency) groups
          (group-IsDistinct currency_eq currency_eq_iff key amount xs))
