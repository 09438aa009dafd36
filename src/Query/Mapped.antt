-- ===== src/Query/Mapped.antt =====
-- A query on documents, against the same query on what they stand for.
use gripe.Common.{ℕ, zero, suc, ◌≡◌, ◌∙◌, refl, ap, Bool, false, List, [], ◌∷◌, arith}
use mathlib.Core.Option
use gripe.Query.{get_elem?, take, map, filter, insert, sort, IsDistinct, lookup_by}
use gripe.Query.Sorted.{map-All}

module _ {A B : Type 0} (f : A → B) where
  pub map-filter :
      (p : A → Bool) (q : B → Bool) (xs : List A)
      → ((a : A) → p a ≡ q (f a))
      → map f (filter p xs) ≡ filter q (map f xs)
  unfolding map filter
  map-filter p q [] h = refl
  map-filter p q (x ∷ xs) h = ground (arith, h x, map-filter p q xs h)

  module _ (before : B → B → Bool) where
    map-insert :
        (x : A) (xs : List A)
        → map f (insert (λ a b. before (f a) (f b)) x xs) ≡ insert before (f x) (map f xs)
    unfolding map insert
    map-insert x [] = refl
    map-insert x (y ∷ ys) = ground (arith, map-insert x ys)

    pub map-sort :
        (xs : List A) → map f (sort (λ a b. before (f a) (f b)) xs) ≡ sort before (map f xs)
    unfolding map sort
    map-sort [] = refl
    map-sort (x ∷ xs) =
        map-insert x (sort (λ a b. before (f a) (f b)) xs) ∙ ap (insert before (f x)) (map-sort xs)

  pub map-take : (n : ℕ) (xs : List A) → map f (take n xs) ≡ take n (map f xs)
  unfolding map take
  map-take zero xs = refl
  map-take (suc n) [] = refl
  map-take (suc n) (x ∷ xs) = ap (◌∷◌ (f x)) (map-take n xs)

  pub get_elem?-map : (xs : List A) (i : ℕ) → get_elem? (map f xs) i ≡ Option.map f (get_elem? xs i)
  unfolding map get_elem?
  get_elem?-map [] i = refl
  get_elem?-map (x ∷ xs) zero = refl
  get_elem?-map (x ∷ xs) (suc i) = get_elem?-map xs i

  module _ {K : Type 0} (eq : K → K → Bool) (key : B → K) where
    pub map-IsDistinct :
        (xs : List A) → IsDistinct eq (λ a. key (f a)) xs → IsDistinct eq key (map f xs)
    unfolding map
    map-IsDistinct [] d = tt
    map-IsDistinct (x ∷ xs) d =
        (map-All f (λ y. eq (key (f x)) (key y) ≡ false) xs d.0, map-IsDistinct xs d.1)

    pub lookup_by-map :
        (k : K) (xs : List A)
        → lookup_by eq key k (map f xs) ≡ Option.map f (lookup_by eq (λ a. key (f a)) k xs)
    unfolding map
    lookup_by-map k [] = refl
    lookup_by-map k (x ∷ xs) = ground (arith, lookup_by-map k xs)
