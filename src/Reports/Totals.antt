-- ===== src/Reports/Totals.antt =====
-- Sums over a part of a list, through grouping and sorting.
use gripe.Common.{
  ◌≡◌, ◌∙◌, refl, ap, Bool, true, List, [], ◌∷◌, arith, ◌↔◌, Bool-cases, inl, inr, if◌then◌else◌,
  String, eq_iff,
}
use gripe.Int.{ℤ, pos, ◌+ℤ◌}
use gripe.Int.Laws.{int_laws}
use gripe.Domain.{Currency, currency_eq}
use gripe.Domain.Equality.{currency_eq_iff}
use gripe.Domain.Views.{MerchantDailyVolume}
use gripe.Query.{map, insert, sort}
use gripe.Reports.{
  Group, add_to_group, group, VolumeKey, volume_key_eq, volume_row, currency_total,
  is_before_volume, is_before_total, volume_rows, revenue_rows,
}

-- The sum of what the elements that pass the test stand for.
unfoldable pub sum : {A : Type 0} → (A → Bool) → (A → ℤ) → List A → ℤ
sum q f [] = pos 0
sum q f (x ∷ xs) = let rest = sum q f xs in if q x then f x +ℤ rest else rest

add_swap : (a b c : ℤ) → a +ℤ (b +ℤ c) ≡ b +ℤ (a +ℤ c)
add_swap a b c = omega int_laws

add_join : (a b c : ℤ) → (a +ℤ b) +ℤ c ≡ b +ℤ (a +ℤ c)
add_join a b c = omega int_laws

module _ {A : Type 0} (q : A → Bool) (f : A → ℤ) where
  sum-insert :
      (before : A → A → Bool) (x : A) (xs : List A)
      → sum q f (insert before x xs) ≡ sum q f (x ∷ xs)
  unfolding sum insert
  sum-insert before x [] = refl
  sum-insert before x (y ∷ ys) =
      ground (arith, sum-insert before x ys, add_swap (f y) (f x) (sum q f ys))

  pub sum-sort : (before : A → A → Bool) (xs : List A) → sum q f (sort before xs) ≡ sum q f xs
  unfolding sum sort
  sum-sort before [] = refl
  sum-sort before (x ∷ xs) =
      ground (arith, sum-insert before x (sort before xs), sum-sort before xs)

  pub sum-map :
      {B : Type 0} (g : B → A) (xs : List B)
      → sum q f (map g xs) ≡ sum (λ b. q (g b)) (λ b. f (g b)) xs
  unfolding sum map
  sum-map g [] = refl
  sum-map g (x ∷ xs) = ground (arith, sum-map g xs)

-- A number that adds up over the members of a group: the total, or the count.
pub record IsMeasure {K : Type 0} (m : Group K → ℤ) (v : ℤ → ℤ) : Type 0 where
  pub first : (k : K) (n : ℤ) → m (record { key = k; total = n; count = pos 1 }) ≡ v n
  pub next :
      (g : Group K) (n : ℤ)
      → m (record { key = g.key; total = g.total +ℤ n; count = g.count +ℤ pos 1 }) ≡ m g +ℤ v n

module _ {K : Type 0} (eq : K → K → Bool) (iff : (j k : K) → (eq j k ≡ true) ↔ (j ≡ k))
    (m : Group K → ℤ) (v : ℤ → ℤ) (is : IsMeasure m v) (q : K → Bool) where
  abbrev among : List (Group K) → ℤ
  among gs = sum (λ g. q g.key) m gs

  sum-add_to_group :
      (k : K) (n : ℤ) (gs : List (Group K))
      → among (add_to_group eq k n gs) ≡ (if q k then v n +ℤ among gs else among gs)
  unfolding sum add_to_group
  sum-add_to_group k n [] = ground (arith, is.first k n)
  sum-add_to_group k n (g ∷ gs) = elim (Bool-cases (eq g.key k)) [
    | inl e ↦
        let same : q g.key ≡ q k = ap q ((iff g.key k).0 e) in
        ground (arith, is.next g n, add_join (m g) (v n) (among gs))
    | inr e ↦ ground (arith, sum-add_to_group k n gs, add_swap (m g) (v n) (among gs))
  ]

  pub sum-group :
      {A : Type 0} (key : A → K) (amount : A → ℤ) (xs : List A)
      → among (group eq key amount xs) ≡ sum (λ x. q (key x)) (λ x. v (amount x)) xs
  unfolding sum group
  sum-group key amount [] = refl
  sum-group key amount (x ∷ xs) =
      sum-add_to_group (key x) (amount x) (group eq key amount xs)
      ∙ ap (λ n. if q (key x) then v (amount x) +ℤ n else n) (sum-group key amount xs)

pub volume_key_eq_iff : (j k : VolumeKey) → (volume_key_eq j k ≡ true) ↔ (j ≡ k)
volume_key_eq_iff j k = (
  λ h. ground (
    arith,
    eq_iff j.merchant_id k.merchant_id,
    eq_iff j.day k.day,
    currency_eq_iff j.currency k.currency,
  ),
  λ h. ground (
    arith,
    eq_iff j.merchant_id k.merchant_id,
    eq_iff j.day k.day,
    currency_eq_iff j.currency k.currency,
  ),
)

abbrev pub key_of : MerchantDailyVolume → VolumeKey
key_of r = record { merchant_id = r.merchant_id; day = r.day; currency = r.currency }

total-IsMeasure : {K : Type 0} → IsMeasure (λ (g : Group K). g.total) (λ n. n)
total-IsMeasure = record { first = λ k n. refl; next = λ g n. refl }

count-IsMeasure : {K : Type 0} → IsMeasure (λ (g : Group K). g.count) (λ n. pos 1)
count-IsMeasure = record { first = λ k n. refl; next = λ g n. refl }

module _ (text_lt : String → String → Bool) {A : Type 0} where
  module _ (key : A → VolumeKey) (amount : A → ℤ) (xs : List A) (q : VolumeKey → Bool) where
    abbrev volumes : List MerchantDailyVolume
    volumes = volume_rows text_lt key amount xs

    pub sum-volume_rows :
        (sum (λ r. q (key_of r)) (λ r. r.total_minor) volumes ≡ sum (λ x. q (key x)) amount xs)
        × (sum (λ r. q (key_of r)) (λ r. r.count) volumes ≡ sum (λ x. q (key x)) (λ x. pos 1) xs)
    unfolding volume_rows
    sum-volume_rows =
        let groups = group volume_key_eq key amount xs in
        let rows = map volume_row groups in
        (
          sum-sort (λ r. q (key_of r)) (λ r. r.total_minor) (is_before_volume text_lt) rows
              ∙ sum-map (λ r. q (key_of r)) (λ r. r.total_minor) volume_row groups
              ∙ sum-group volume_key_eq volume_key_eq_iff (λ g. g.total) (λ n. n) total-IsMeasure q
                  key amount xs,
          sum-sort (λ r. q (key_of r)) (λ r. r.count) (is_before_volume text_lt) rows
              ∙ sum-map (λ r. q (key_of r)) (λ r. r.count) volume_row groups
              ∙ sum-group volume_key_eq volume_key_eq_iff (λ g. g.count) (λ n. pos 1)
                  count-IsMeasure q key amount xs,
        )

  pub sum-revenue_rows :
      (key : A → Currency) (amount : A → ℤ) (xs : List A) (q : Currency → Bool)
      → sum (λ r. q r.currency) (λ r. r.total_minor) (revenue_rows text_lt key amount xs)
        ≡ sum (λ x. q (key x)) amount xs
  unfolding revenue_rows
  sum-revenue_rows key amount xs q =
      let groups = group currency_eq key amount xs in
      sum-sort (λ r. q r.currency) (λ r. r.total_minor) (is_before_total text_lt)
        (map currency_total groups)
      ∙ sum-map (λ r. q r.currency) (λ r. r.total_minor) currency_total groups
      ∙ sum-group currency_eq currency_eq_iff (λ g. g.total) (λ n. n) total-IsMeasure q key amount
          xs
