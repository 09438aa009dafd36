-- ===== src/Listing/Pages.antt =====
-- A client that follows the cursors, against one listing without pages.
use gripe.Common.{
  ℕ, zero, suc, ◌+◌, ◌-◌, ◌*◌, ◌≤◌, ◌<◌, ◌≡◌, ◌∙◌, refl, ap, sym, true, false, Option, none, some,
  List, [], ◌∷◌, ◌++◌, ◌==◌, arith, Option-cases, inl, inr,
}
use gripe.Domain.{Payment}
use gripe.Domain.Views.{Cursor, Page}
use gripe.Query.{length, take, drop, get_elem?, map}
use gripe.Exec.{Action, World, ok, pure, ◌>>=◌}
use gripe.Listing.{PaymentCursor, Codec, list_page_max, next_cursor, to_page}

-- The client's loop: the pages' items, until a page has no cursor; `none` is out of fuel.
unfoldable pub follow :
    {D : Type 0} → (Cursor → Action D Page) → ℕ → Cursor → Action D (Option (List Payment))
follow page zero cursor = pure none
follow page (suc fuel) cursor = do
  p ← page cursor
  (elim (p.next_cursor == "") [
    | true ↦ pure (some p.items)
    | false ↦ do
      rest ← follow page fuel p.next_cursor
      pure (elim rest [ none ↦ none | some items ↦ some (p.items ++ items) ])
  ])

-- encodeCursor and decodeCursor are inverse, and an encoded cursor is not empty.
pub record IsCodec (codec : Codec) : Type 0 where
  pub round_trip : (c : PaymentCursor) → codec.decode (codec.encode c) ≡ some c
  pub not_empty : (c : PaymentCursor) → (codec.encode c == "") ≡ false

module _ {D : Type 0} (page : Cursor → Action D Page) where
  follow-last :
      (fuel : ℕ) (cursor : Cursor) (p : Page) (w w1 : World D)
      → page cursor w ≡ (ok p, w1)
      → (p.next_cursor == "") ≡ true
      → follow page (suc fuel) cursor w ≡ (ok (some p.items), w1)
  unfolding follow ◌>>=◌
  follow-last fuel cursor p w w1 got end = ground arith

  follow-more :
      (fuel : ℕ) (cursor : Cursor) (p : Page) (rest : List Payment) (w w1 w2 : World D)
      → page cursor w ≡ (ok p, w1)
      → (p.next_cursor == "") ≡ false
      → follow page fuel p.next_cursor w1 ≡ (ok (some rest), w2)
      → follow page (suc fuel) cursor w ≡ (ok (some (p.items ++ rest)), w2)
  unfolding follow ◌>>=◌
  follow-more fuel cursor p rest w w1 w2 got more followed = ground arith

module _ {A B : Type 0} where
  map-take-drop :
      (f : A → B) (n : ℕ) (xs : List A) → map f (take n xs) ++ map f (drop n xs) ≡ map f xs
  unfolding map take drop
  map-take-drop f zero xs = refl
  map-take-drop f (suc n) [] = refl
  map-take-drop f (suc n) (x ∷ xs) = ap (◌∷◌ (f x)) (map-take-drop f n xs)

module _ {A : Type 0} where
  pub get_elem?-take : (n i : ℕ) (xs : List A) → i < n → get_elem? (take n xs) i ≡ get_elem? xs i
  unfolding take get_elem?
  get_elem?-take zero i xs h = absurd (omega arith)
  get_elem?-take (suc n) i [] h = refl
  get_elem?-take (suc n) zero (x ∷ xs) h = refl
  get_elem?-take (suc n) (suc i) (x ∷ xs) h = get_elem?-take n i xs (omega arith)

  take-take : (n m : ℕ) (xs : List A) → n ≤ m → take n (take m xs) ≡ take n xs
  unfolding take
  take-take zero m xs h = refl
  take-take (suc n) zero xs h = absurd (omega arith)
  take-take (suc n) (suc m) [] h = refl
  take-take (suc n) (suc m) (x ∷ xs) h = ap (◌∷◌ x) (take-take n m xs (omega arith))

  pub get_elem?-none : (i : ℕ) (xs : List A) → get_elem? xs i ≡ none → length xs ≤ i
  unfolding get_elem? length
  get_elem?-none i [] h = omega arith
  get_elem?-none zero (x ∷ xs) h = ground arith
  get_elem?-none (suc i) (x ∷ xs) h = omega (arith, get_elem?-none i xs h)

  get_elem?-some : (i : ℕ) (xs : List A) {a : A} → get_elem? xs i ≡ some a → i < length xs
  unfolding get_elem? length
  get_elem?-some i [] h = ground arith
  get_elem?-some zero (x ∷ xs) h = omega arith
  get_elem?-some (suc i) (x ∷ xs) h = omega (arith, get_elem?-some i xs h)

  get_elem?-lt : (i : ℕ) (xs : List A) → i < length xs → (a : A) × (get_elem? xs i ≡ some a)
  unfolding get_elem? length
  get_elem?-lt i [] h = absurd (omega arith)
  get_elem?-lt zero (x ∷ xs) h = (x, refl)
  get_elem?-lt (suc i) (x ∷ xs) h = get_elem?-lt i xs (omega arith)

  take-all : (n : ℕ) (xs : List A) → length xs ≤ n → take n xs ≡ xs
  unfolding take length
  take-all zero [] h = refl
  take-all zero (x ∷ xs) h = absurd (omega arith)
  take-all (suc n) [] h = refl
  take-all (suc n) (x ∷ xs) h = ap (◌∷◌ x) (take-all n xs (omega arith))

  get_elem?-drop : (n i j : ℕ) (xs : List A) → n + i ≡ j → get_elem? (drop n xs) i ≡ get_elem? xs j
  unfolding drop get_elem?
  get_elem?-drop zero i j xs h = let e : i ≡ j = omega arith in rw e refl
  get_elem?-drop (suc n) i zero xs h = absurd (omega arith)
  get_elem?-drop (suc n) i (suc j) [] h = refl
  get_elem?-drop (suc n) i (suc j) (x ∷ xs) h = get_elem?-drop n i j xs (omega arith)

  length-drop : (n : ℕ) (xs : List A) → length (drop n xs) ≤ length xs - n
  unfolding drop length
  length-drop zero xs = omega arith
  length-drop (suc n) [] = omega arith
  length-drop (suc n) (x ∷ xs) = omega (arith, length-drop n xs)

  drop-drop : (n m k : ℕ) (xs : List A) → n + m ≡ k → drop m (drop n xs) ≡ drop k xs
  unfolding drop
  drop-drop zero m k xs h = let e : m ≡ k = omega arith in rw e refl
  drop-drop (suc n) m zero xs h = absurd (omega arith)
  drop-drop (suc n) zero (suc k) [] h = refl
  drop-drop (suc n) (suc m) (suc k) [] h = refl
  drop-drop (suc n) m (suc k) (x ∷ xs) h = drop-drop n m k xs (omega arith)

module _ {A : Type 0} (codec : Codec) (at : A → PaymentCursor) (to_payment : A → Payment) where
  abbrev page_from : List A → Page
  page_from xs = to_page codec at to_payment (take (suc list_page_max) xs)

  last_cursor : (docs : List A) → get_elem? docs 50 ≡ none → next_cursor codec at docs ≡ ""
  last_cursor docs h = ground arith

  full_cursor :
      (docs : List A) (more last : A)
      → get_elem? docs 50 ≡ some more
      → get_elem? docs 49 ≡ some last
      → next_cursor codec at docs ≡ codec.encode (at last)
  full_cursor docs more last h k = ground arith

  last_page :
      (xs : List A)
      → get_elem? xs 50 ≡ none
      → page_from xs ≡ record { items = map to_payment xs; next_cursor = "" }
  unfolding to_page
  last_page xs h =
      let items = take-take 50 51 xs (omega arith) ∙ take-all 50 xs (get_elem?-none 50 xs h) in
      let cursor = last_cursor (take 51 xs) (get_elem?-take 51 50 xs (omega arith) ∙ h) in
      λ i. record { items = map to_payment (items i); next_cursor = cursor i }

  full_page :
      (xs : List A) (more last : A)
      → get_elem? xs 50 ≡ some more
      → get_elem? xs 49 ≡ some last
      → page_from xs
        ≡ record { items = map to_payment (take 50 xs); next_cursor = codec.encode (at last) }
  unfolding to_page
  full_page xs more last h k =
      let items = take-take 50 51 xs (omega arith) in
      let cursor =
        full_cursor (take 51 xs) more last (get_elem?-take 51 50 xs (omega arith) ∙ h)
          (get_elem?-take 51 49 xs (omega arith) ∙ k) in
      λ i. record { items = map to_payment (items i); next_cursor = cursor i }

  module _ {D : Type 0} (page : Cursor → Action D Page) (I : World D → Type 0) where
    -- A request with the cursor answers with the first page of the list.
    abbrev pub Serves : Cursor → List A → Type 0
    Serves cursor xs =
        (w : World D) → I w → (w' : World D) × (page cursor w ≡ (ok (page_from xs), w')) × I w'

    module _ (is : IsCodec codec) (L : List A)
        (later : (i : ℕ) (c : A)
          → get_elem? L i ≡ some c
          → Serves (codec.encode (at c)) (drop (suc i) L)) where
      pub follow-drop :
          (fuel n : ℕ) (cursor : Cursor) (w : World D)
          → Serves cursor (drop n L)
          → length L ≤ n + 50 * fuel
          → 0 < fuel
          → I w
          → (w' : World D) × (follow page fuel cursor w
              ≡ (ok (some (map to_payment (drop n L))), w'))
            × I w'
      follow-drop zero n cursor w serves enough some_fuel i = absurd (omega arith)
      follow-drop (suc fuel) n cursor w serves enough some_fuel i =
          let (w1, got, i1) = serves w i in
          elim (Option-cases (get_elem? (drop n L) 50)) [
            | inl none_left ↦ (
              w1,
              follow-last page fuel cursor
                  (record { items = map to_payment (drop n L); next_cursor = "" }) w w1
                  (got ∙ ap (λ q. (ok q, w1)) (last_page (drop n L) none_left)) refl,
              i1,
            )
            | inr (more, e) ↦
                let beyond = get_elem?-some 50 (drop n L) e in
                let (last, e') = get_elem?-lt 49 (drop n L) (omega (arith, beyond)) in
                let at_end : get_elem? L (n + 49) ≡ some last =
                  sym (get_elem?-drop n 49 (n + 49) L refl) ∙ e' in
                let rest_served : Serves (codec.encode (at last)) (drop (n + 50) L) =
                  (let next : suc (n + 49) ≡ n + 50 = omega arith in
                    rw (← next) (later (n + 49) last at_end)) in
                let more_fuel : 0 < fuel = (omega (arith, beyond, length-drop n L)) in
                let (w2, rest, i2) =
                  follow-drop fuel (n + 50) (codec.encode (at last)) w1 rest_served (omega arith)
                    more_fuel i1 in
                let p : Page = record {
                  items = map to_payment (take 50 (drop n L));
                  next_cursor = codec.encode (at last);
                } in
                let step =
                  follow-more page fuel cursor p (map to_payment (drop (n + 50) L)) w w1 w2
                    (got ∙ ap (λ q. (ok q, w1)) (full_page (drop n L) more last e e'))
                    (is.not_empty (at last)) rest in
                let whole =
                  ap (λ xs. map to_payment (take 50 (drop n L)) ++ map to_payment xs)
                    (sym (drop-drop n 50 (n + 50) L refl))
                  ∙ map-take-drop to_payment 50 (drop n L) in
                (w2, step ∙ ap (λ xs. (ok (some xs), w2)) whole, i2)
          ]
