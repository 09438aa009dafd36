-- ===== src/Query.antt =====
-- What the queries of both stores ask of their databases beside a filter: an order and a limit. The
-- documented result of a sort is the documents in that order; documents that the order does not
-- tell apart stand in any order.
pub mod Sorted
pub mod Keyed
pub mod Pages
pub mod Texts
pub mod Mapped
pub mod Unique
use gripe.Common.{
  ℕ, zero, suc, ◌+◌, ◌≡◌, Bool, true, false, Option, none, some, List, [], ◌∷◌, if◌then◌else◌,
}

module _ {ℓ} {A : Type ℓ} where
  unfoldable pub length : List A → ℕ
  length [] = 0
  length (x ∷ xs) = suc (length xs)

  unfoldable pub take : ℕ → List A → List A
  take zero xs = []
  take (suc n) [] = []
  take (suc n) (x ∷ xs) = x ∷ take n xs

  unfoldable pub drop : ℕ → List A → List A
  drop zero xs = xs
  drop (suc n) [] = []
  drop (suc n) (x ∷ xs) = drop n xs

  unfoldable pub get_elem? : List A → ℕ → Option A
  get_elem? [] i = none
  get_elem? (x ∷ xs) zero = some x
  get_elem? (x ∷ xs) (suc i) = get_elem? xs i

  unfoldable pub filter : (A → Bool) → List A → List A
  filter p [] = []
  filter p (x ∷ xs) = let rest = filter p xs in if p x then x ∷ rest else rest

  abbrev pub All : (A → Type ℓ) → List A → Type ℓ
  All P [] = Unit
  All P (x ∷ xs) = P x × All P xs

  -- Before every element that does not stand before it.
  unfoldable pub insert : (A → A → Bool) → A → List A → List A
  insert before x [] = x ∷ []
  insert before x (y ∷ ys) =
      let rest = insert before x ys in if before y x then y ∷ rest else x ∷ y ∷ ys

  unfoldable pub sort : (A → A → Bool) → List A → List A
  unfolding insert
  sort before [] = []
  sort before (x ∷ xs) = insert before x (sort before xs)

unfoldable pub map {ℓ κ} : {A : Type ℓ} {B : Type κ} → (A → B) → List A → List B
map f [] = []
map f (x ∷ xs) = f x ∷ map f xs

-- The first document with the key.
abbrev pub lookup_by : {A K : Type 0} → (K → K → Bool) → (A → K) → K → List A → Option A
lookup_by eq key k [] = none
lookup_by eq key k (a ∷ xs) = if eq (key a) k then some a else lookup_by eq key k xs

-- A strict order up to documents that it does not tell apart.
pub record IsOrder {A : Type 0} (before : A → A → Bool) : Type 0 where
  pub asymmetric : (a b : A) → before a b ≡ true → before b a ≡ false
  pub transitive : (a b c : A) → before b a ≡ false → before c b ≡ false → before c a ≡ false

-- Nothing later stands before anything earlier.
abbrev pub IsSorted : {A : Type 0} → (A → A → Bool) → List A → Type 0
IsSorted before [] = Unit
IsSorted before (x ∷ xs) = All (λ y. before y x ≡ false) xs × IsSorted before xs

-- Everything earlier stands before everything later.
abbrev pub IsStrict : {A : Type 0} → (A → A → Bool) → List A → Type 0
IsStrict before [] = Unit
IsStrict before (x ∷ xs) = All (λ y. before x y ≡ true) xs × IsStrict before xs

-- No two documents have one key.
abbrev pub IsDistinct : {A K : Type 0} → (K → K → Bool) → (A → K) → List A → Type 0
IsDistinct eq key [] = Unit
IsDistinct eq key (x ∷ xs) = All (λ y. eq (key x) (key y) ≡ false) xs × IsDistinct eq key xs
