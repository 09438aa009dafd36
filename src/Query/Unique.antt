-- ===== src/Query/Unique.antt =====
-- Lists in one strict order, by the documents that they have.
use gripe.Common.{
  ◌≡◌, ◌∙◌, refl, ap, sym, Bool, true, false, Option, some, List, [], ◌∷◌, arith, Bool-cases, inl,
  inr, ◌↔◌,
}
use gripe.Query.{All, IsStrict, IsDistinct, lookup_by}
use gripe.Query.Keyed.{lookup_by-absent}

module _ {A K : Type 0} (eq : K → K → Bool) (key : A → K)
    (iff : (j k : K) → (eq j k ≡ true) ↔ (j ≡ k)) (before : A → A → Bool)
    (asymmetric : (a b : A) → before a b ≡ true → before b a ≡ false) where
  All-lookup_by :
      (P : A → Type 0) (k : K) (a : A) (xs : List A)
      → All P xs
      → lookup_by eq key k xs ≡ some a
      → P a
  All-lookup_by P k a [] h e = absurd (ground arith)
  All-lookup_by P k a (x ∷ xs) h e = elim (Bool-cases (eq (key x) k)) [
    | inl here ↦ (let same : x ≡ a = (ground arith) in rw (← same) h.0)
    | inr there ↦ All-lookup_by P k a xs h.1 (ground arith)
  ]

  abbrev at : K → List A → Option A
  at k xs = lookup_by eq key k xs

  here : (x : A) (xs : List A) → at (key x) (x ∷ xs) ≡ some x
  here x xs = ground (arith, iff (key x) (key x))

  heads :
      (x y : A) (xs ys : List A)
      → IsStrict before (x ∷ xs)
      → IsStrict before (y ∷ ys)
      → ((k : K) → at k (x ∷ xs) ≡ at k (y ∷ ys))
      → x ≡ y
  heads x y xs ys s t h = elim (Bool-cases (eq (key y) (key x))) [
    | inl e ↦ (let first = here x xs in let same = h (key x) in ground arith)
    | inr e ↦
        let other : eq (key x) (key y) ≡ false =
          (ground (arith, iff (key x) (key y), iff (key y) (key x))) in
        let x_later : at (key x) ys ≡ some x =
          (let first = here x xs in let same = h (key x) in ground arith) in
        let y_later : at (key y) xs ≡ some y =
          (let first = here y ys in let same = h (key y) in ground arith) in
        let below = All-lookup_by (λ z. before y z ≡ true) (key x) x ys t.0 x_later in
        let above = All-lookup_by (λ z. before x z ≡ true) (key y) y xs s.0 y_later in
        absurd (ground (arith, asymmetric y x below))
  ]

  tails :
      (x : A) (xs ys : List A)
      → IsDistinct eq key (x ∷ xs)
      → IsDistinct eq key (x ∷ ys)
      → ((k : K) → at k (x ∷ xs) ≡ at k (x ∷ ys))
      → (k : K) → at k xs ≡ at k ys
  tails x xs ys d c h k = elim (Bool-cases (eq (key x) k)) [
    | inl e ↦
        lookup_by-absent eq key iff (key x) k xs e d.0
        ∙ sym (lookup_by-absent eq key iff (key x) k ys e c.0)
    | inr e ↦ (let same = h k in ground arith)
  ]

  pub lookup_by-determines :
      (xs ys : List A)
      → IsStrict before xs
      → IsStrict before ys
      → IsDistinct eq key xs
      → IsDistinct eq key ys
      → ((k : K) → at k xs ≡ at k ys)
      → xs ≡ ys
  lookup_by-determines [] [] s t d c h = refl
  lookup_by-determines [] (y ∷ ys) s t d c h =
      absurd (let first = here y ys in let same = h (key y) in ground arith)
  lookup_by-determines (x ∷ xs) [] s t d c h =
      absurd (let first = here x xs in let same = h (key x) in ground arith)
  lookup_by-determines (x ∷ xs) (y ∷ ys) s t d c h =
      let one = heads x y xs ys s t h in
      let c' : IsDistinct eq key (x ∷ ys) = (rw one c) in
      let h' = λ (k : K). h k ∙ ap (λ z. at k (z ∷ ys)) (sym one) in
      let rest = lookup_by-determines xs ys s.1 t.1 d.1 c.1 (tails x xs ys d c' h') in
      λ i. one i ∷ rest i
