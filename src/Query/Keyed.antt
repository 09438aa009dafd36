-- ===== src/Query/Keyed.antt =====
-- Lists of documents with distinct keys, filtered and sorted.
use gripe.Common.{
  ◌≡◌, refl, Bool, true, false, none, some, List, [], ◌∷◌, arith, Bool-cases, inl, inr,
  if◌then◌else◌, ◌↔◌,
}
use gripe.Storage.{matching}
use gripe.Query.{filter, insert, sort, All, IsOrder, IsSorted, IsStrict, IsDistinct, lookup_by}
use gripe.Query.Sorted.{All-filter, All-insert, All-sort, sort-IsSorted}

module _ {A K : Type 0} (eq : K → K → Bool) (key : A → K)
    (iff : (j k : K) → (eq j k ≡ true) ↔ (j ≡ k)) where
  pub lookup_by-absent :
      (j k : K) (xs : List A)
      → eq j k ≡ true
      → All (λ y. eq j (key y) ≡ false) xs
      → lookup_by eq key k xs ≡ none
  lookup_by-absent j k [] e h = refl
  lookup_by-absent j k (x ∷ xs) e h =
      ground (arith, iff j k, iff (key x) k, iff j (key x), lookup_by-absent j k xs e h.1)

  pub lookup_by-filter :
      (q : A → Bool) (k : K) (xs : List A)
      → IsDistinct eq key xs
      → lookup_by eq key k (filter q xs) ≡ matching q (lookup_by eq key k xs)
  unfolding filter
  lookup_by-filter q k [] d = refl
  lookup_by-filter q k (x ∷ xs) d = elim (Bool-cases (eq (key x) k)) [
    | inl e ↦ ground (
      arith,
      lookup_by-absent (key x) k (filter q xs) e
          (All-filter (λ y. eq (key x) (key y) ≡ false) q xs d.0),
    )
    | inr e ↦ ground (arith, lookup_by-filter q k xs d.1)
  ]

  pub filter-IsDistinct :
      (q : A → Bool) (xs : List A) → IsDistinct eq key xs → IsDistinct eq key (filter q xs)
  unfolding filter
  filter-IsDistinct q [] d = tt
  filter-IsDistinct q (x ∷ xs) d = elim (Bool-cases (q x)) [
    | inl e ↦
        rw e (All-filter (λ y. eq (key x) (key y) ≡ false) q xs d.0, filter-IsDistinct q xs d.1)
    | inr e ↦ rw e (filter-IsDistinct q xs d.1)
  ]

  module _ (before : A → A → Bool) where
    lookup_by-insert :
        (x : A) (k : K) (xs : List A)
        → All (λ y. eq (key x) (key y) ≡ false) xs
        → lookup_by eq key k (insert before x xs)
          ≡ (if eq (key x) k then some x else lookup_by eq key k xs)
    unfolding insert
    lookup_by-insert x k [] h = refl
    lookup_by-insert x k (y ∷ ys) h =
        ground
          (arith, iff (key x) k, iff (key y) k, iff (key x) (key y), lookup_by-insert x k ys h.1)

    pub lookup_by-sort :
        (k : K) (xs : List A)
        → IsDistinct eq key xs
        → lookup_by eq key k (sort before xs) ≡ lookup_by eq key k xs
    unfolding sort
    lookup_by-sort k [] d = refl
    lookup_by-sort k (x ∷ xs) d = ground (
      arith,
      lookup_by-insert x k (sort before xs)
          (All-sort before (λ y. eq (key x) (key y) ≡ false) xs d.0),
      lookup_by-sort k xs d.1,
    )

    insert-IsDistinct :
        (x : A) (xs : List A)
        → All (λ y. eq (key x) (key y) ≡ false) xs
        → IsDistinct eq key xs
        → IsDistinct eq key (insert before x xs)
    unfolding insert
    insert-IsDistinct x [] h d = (h, d)
    insert-IsDistinct x (y ∷ ys) h d = elim (Bool-cases (before y x)) [
      | inl e ↦ rw e (
        All-insert before (λ z. eq (key y) (key z) ≡ false) x ys
            (ground (arith, iff (key x) (key y), iff (key y) (key x))) d.0,
        insert-IsDistinct x ys h.1 d.1,
      )
      | inr e ↦ rw e (h, d)
    ]

    pub sort-IsDistinct : (xs : List A) → IsDistinct eq key xs → IsDistinct eq key (sort before xs)
    unfolding sort
    sort-IsDistinct [] d = tt
    sort-IsDistinct (x ∷ xs) d =
        insert-IsDistinct x (sort before xs)
          (All-sort before (λ y. eq (key x) (key y) ≡ false) xs d.0) (sort-IsDistinct xs d.1)

    module _ (o : IsOrder before)
        (total : (a b : A)
          → before a b ≡ false
          → before b a ≡ false
          → eq (key a) (key b) ≡ true) where
      All-strict :
          (x : A) (xs : List A)
          → All (λ y. before y x ≡ false) xs
          → All (λ y. eq (key x) (key y) ≡ false) xs
          → All (λ y. before x y ≡ true) xs
      All-strict x [] s d = tt
      All-strict x (y ∷ ys) s d = (
        elim (Bool-cases (before x y)) [ inl e ↦ e | inr e ↦ ground (arith, total x y e s.0) ],
        All-strict x ys s.1 d.1,
      )

      sorted-IsStrict :
          (xs : List A) → IsSorted before xs → IsDistinct eq key xs → IsStrict before xs
      sorted-IsStrict [] s d = tt
      sorted-IsStrict (x ∷ xs) s d = (All-strict x xs s.0 d.0, sorted-IsStrict xs s.1 d.1)

      pub sort-IsStrict : (xs : List A) → IsDistinct eq key xs → IsStrict before (sort before xs)
      sort-IsStrict xs d =
          sorted-IsStrict (sort before xs) (sort-IsSorted before o xs) (sort-IsDistinct xs d)
