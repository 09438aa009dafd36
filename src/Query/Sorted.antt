-- ===== src/Query/Sorted.antt =====
-- Sorted and filtered lists of documents.
use gripe.Common.{
  ℕ, zero, suc, ◌≡◌, refl, Bool, true, false, List, [], ◌∷◌, ◌&&◌, arith, Bool-cases, inl, inr,
  if◌then◌else◌,
}
use gripe.Query.{map, take, filter, insert, sort, All, IsOrder, IsSorted}

module _ {A : Type 0} where
  pub All-filter : (P : A → Type 0) (p : A → Bool) (xs : List A) → All P xs → All P (filter p xs)
  unfolding filter
  All-filter P p [] h = h
  All-filter P p (x ∷ xs) h = ground (arith, All-filter P p xs h.1)

  pub All-map : (P Q : A → Type 0) (xs : List A) → ((a : A) → P a → Q a) → All P xs → All Q xs
  All-map P Q [] f h = h
  All-map P Q (x ∷ xs) f h = (f x h.0, All-map P Q xs f h.1)

  -- What a filter keeps passes it.
  pub filter-passes : (p : A → Bool) (xs : List A) → All (λ x. p x ≡ true) (filter p xs)
  unfolding filter
  filter-passes p [] = tt
  filter-passes p (x ∷ xs) = elim (Bool-cases (p x)) [
    | inl e ↦ rw e (e, filter-passes p xs)
    | inr e ↦ rw e (filter-passes p xs)
  ]

  pub All-take : (P : A → Type 0) (n : ℕ) (xs : List A) → All P xs → All P (take n xs)
  unfolding take
  All-take P zero xs h = tt
  All-take P (suc n) [] h = h
  All-take P (suc n) (x ∷ xs) h = (h.0, All-take P n xs h.1)

  pub map-All :
      {B : Type 0} (f : B → A) (P : A → Type 0) (xs : List B)
      → All (λ x. P (f x)) xs
      → All P (map f xs)
  unfolding map
  map-All f P [] h = tt
  map-All f P (x ∷ xs) h = (h.0, map-All f P xs h.1)

  -- One filter after another is their conjunction.
  pub filter-filter :
      (p q : A → Bool) (xs : List A) → filter p (filter q xs) ≡ filter (λ x. q x && p x) xs
  unfolding filter
  filter-filter p q [] = refl
  filter-filter p q (x ∷ xs) = ground (arith, filter-filter p q xs)

module _ {A : Type 0} (before : A → A → Bool) where
  pub All-insert :
      (P : A → Type 0) (x : A) (xs : List A) → P x → All P xs → All P (insert before x xs)
  unfolding insert
  All-insert P x [] p h = (p, h)
  All-insert P x (y ∷ ys) p h = elim (Bool-cases (before y x)) [
    | inl e ↦ rw e (h.0, All-insert P x ys p h.1)
    | inr e ↦ rw e (p, h)
  ]

  pub All-sort : (P : A → Type 0) (xs : List A) → All P xs → All P (sort before xs)
  unfolding sort
  All-sort P [] h = h
  All-sort P (x ∷ xs) h = All-insert P x (sort before xs) h.0 (All-sort P xs h.1)

  module _ (o : IsOrder before) where
    insert-IsSorted :
        (x : A) (xs : List A) → IsSorted before xs → IsSorted before (insert before x xs)
    unfolding insert
    insert-IsSorted x [] s = (tt, tt)
    insert-IsSorted x (y ∷ ys) s = elim (Bool-cases (before y x)) [
      | inl e ↦ rw e (
        All-insert (λ z. before z y ≡ false) x ys (o.asymmetric y x e) s.0,
        insert-IsSorted x ys s.1,
      )
      | inr e ↦ rw e (
        (
          e,
          All-map (λ z. before z y ≡ false) (λ z. before z x ≡ false) ys
              (λ z h. o.transitive x y z e h) s.0,
        ),
        s,
      )
    ]

    pub sort-IsSorted : (xs : List A) → IsSorted before (sort before xs)
    unfolding sort
    sort-IsSorted [] = tt
    sort-IsSorted (x ∷ xs) = insert-IsSorted x (sort before xs) (sort-IsSorted xs)

    -- An element that stands before the head of a sorted list goes first.
    insert-first :
        (x : A) (xs : List A) → All (λ y. before y x ≡ false) xs → insert before x xs ≡ x ∷ xs
    unfolding insert
    insert-first x [] h = refl
    insert-first x (y ∷ ys) h = rw h.0

    filter-insert :
        (p : A → Bool) (x : A) (xs : List A)
        → IsSorted before xs
        → filter p (insert before x xs)
          ≡ (if p x then insert before x (filter p xs) else filter p xs)
    unfolding filter insert
    filter-insert p x [] s = ground arith
    filter-insert p x (y ∷ ys) s = elim (Bool-cases (before y x)) [
      | inl e ↦ ground (arith, filter-insert p x ys s.1)
      | inr e ↦
          let later =
            All-map (λ z. before z y ≡ false) (λ z. before z x ≡ false) ys
              (λ z h. o.transitive x y z e h) s.0 in
          let first =
            insert-first x (filter p ys) (All-filter (λ z. before z x ≡ false) p ys later) in
          ground arith
    ]

    pub filter-sort :
        (p : A → Bool) (xs : List A) → filter p (sort before xs) ≡ sort before (filter p xs)
    unfolding sort filter
    filter-sort p [] = refl
    filter-sort p (x ∷ xs) =
        ground (arith, filter-insert p x (sort before xs) (sort-IsSorted xs), filter-sort p xs)
