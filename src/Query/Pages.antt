-- ===== src/Query/Pages.antt =====
-- Keyset pagination over a strict list: what stands after the last element of a page is the rest.
use gripe.Common.{ℕ, zero, suc, ◌≡◌, refl, Bool, true, false, some, List, [], ◌∷◌, arith}
use gripe.Query.{filter, drop, get_elem?, All, IsOrder, IsStrict}

module _ {A : Type 0} (before : A → A → Bool) where
  filter-All : (p : A → Bool) (xs : List A) → All (λ y. p y ≡ true) xs → filter p xs ≡ xs
  unfolding filter
  filter-All p [] h = refl
  filter-All p (x ∷ xs) h = rw (h.0, filter-All p xs h.1)

  All-get :
      (P : A → Type 0) (xs : List A) (i : ℕ) (c : A) → All P xs → get_elem? xs i ≡ some c → P c
  unfolding get_elem?
  All-get P [] i c h e = ground arith
  All-get P (x ∷ xs) zero c h e = let same : x ≡ c = (ground arith) in rw same at h.0
  All-get P (x ∷ xs) (suc i) c h e = All-get P xs i c h.1 e

  pub filter-after :
      (o : IsOrder before) (xs : List A) (i : ℕ) (c : A)
      → IsStrict before xs
      → get_elem? xs i ≡ some c
      → filter (before c) xs ≡ drop (suc i) xs
  unfolding filter get_elem? drop
  filter-after o [] i c s e = ground arith
  filter-after o (x ∷ xs) zero c s e =
      let same : x ≡ c = (ground arith) in
      let self : before c x ≡ false = (ground (arith, o.asymmetric x x)) in
      let later : All (λ y. before c y ≡ true) xs = (rw same at s.0) in
      rw (self, filter-All (before c) xs later)
  filter-after o (x ∷ xs) (suc i) c s e =
      let ahead = All-get (λ y. before x y ≡ true) xs i c s.0 e in
      rw (o.asymmetric x c ahead) (filter-after o xs i c s.1 e)
