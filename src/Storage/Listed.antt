-- ===== src/Storage/Listed.antt =====
-- A collection exists: a list of documents, the latest version of each first, has every law of the
-- interface.
use gripe.Common.{
  ◌≡◌, refl, Bool, true, false, Option, none, some, List, [], ◌∷◌, ◌||◌, arith, ◌↔◌, if◌then◌else◌,
  Bool-cases, inl, inr,
}
use gripe.Query.{lookup_by, IsDistinct, All}
use gripe.Storage.{Collection, matching, updated, inserted, upserted}

module _ {A K : Type 0} (eq : K → K → Bool) (key : A → K) where
  abbrev find : K → List A → Option A
  find k [] = none
  find k (a ∷ s) = if eq (key a) k then some a else find k s

  abbrev is_among : K → List K → Bool
  is_among k [] = false
  is_among k (j ∷ ks) = eq j k || is_among k ks

  -- The first that passes the test, among the latest versions: `ks` holds the keys gone by.
  abbrev search_from : (A → Bool) → List K → List A → Option A
  search_from q ks [] = none
  search_from q ks (a ∷ s) =
      let later = search_from q (key a ∷ ks) s in
      if is_among (key a) ks then search_from q ks s else if q a then some a else later

  abbrev drop_key : K → List A → List A
  drop_key k [] = []
  drop_key k (a ∷ s) = let rest = drop_key k s in if eq (key a) k then rest else a ∷ rest

  -- The latest version of each document.
  abbrev latest : List A → List A
  latest [] = []
  latest (a ∷ s) = a ∷ drop_key (key a) (latest s)

  All-drop_key : (P : A → Type 0) (k : K) (xs : List A) → All P xs → All P (drop_key k xs)
  All-drop_key P k [] h = h
  All-drop_key P k (a ∷ xs) h = ground (arith, All-drop_key P k xs h.1)

  module _ (iff : (j k : K) → (eq j k ≡ true) ↔ (j ≡ k)) where
    pub find-key : (k : K) (a : A) (s : List A) → find k s ≡ some a → eq (key a) k ≡ true
    find-key k a [] h = ground arith
    find-key k a (b ∷ s) h = ground (arith, find-key k a s)

    pub search_from-some :
        (q : A → Bool) (a : A) (ks : List K) (s : List A)
        → search_from q ks s ≡ some a
        → (q a ≡ true) × (is_among (key a) ks ≡ false) × (find (key a) s ≡ some a)
    search_from-some q a ks [] h = ground arith
    search_from-some q a ks (b ∷ s) h =
        ground (
          arith,
          iff (key b) (key a),
          search_from-some q a ks s,
          search_from-some q a (key b ∷ ks) s,
        )

    pub search_from-none :
        (q : A → Bool) (k : K) (a : A) (ks : List K) (s : List A)
        → search_from q ks s ≡ none
        → is_among k ks ≡ false
        → find k s ≡ some a
        → q a ≡ false
    search_from-none q k a ks [] h n f = ground arith
    search_from-none q k a ks (b ∷ s) h n f =
        ground
          (arith, iff (key b) k, search_from-none q k a ks s, search_from-none q k a (key b ∷ ks) s)

    lookup_by-drop_key :
        (j k : K) (xs : List A)
        → lookup_by eq key k (drop_key j xs) ≡ (if eq j k then none else lookup_by eq key k xs)
    lookup_by-drop_key j k [] = ground arith
    lookup_by-drop_key j k (a ∷ xs) =
        ground (arith, iff (key a) k, iff (key a) j, iff j k, lookup_by-drop_key j k xs)

    pub find-latest : (k : K) (s : List A) → find k s ≡ lookup_by eq key k (latest s)
    find-latest k [] = refl
    find-latest k (a ∷ s) = ground (arith, lookup_by-drop_key (key a) k (latest s), find-latest k s)

    drop_key-absent : (k : K) (xs : List A) → All (λ y. eq k (key y) ≡ false) (drop_key k xs)
    drop_key-absent k [] = tt
    drop_key-absent k (a ∷ xs) = elim (Bool-cases (eq (key a) k)) [
      | inl e ↦ rw e (drop_key-absent k xs)
      | inr e ↦ rw e (ground (arith, iff (key a) k, iff k (key a)), drop_key-absent k xs)
    ]

    drop_key-IsDistinct :
        (k : K) (xs : List A) → IsDistinct eq key xs → IsDistinct eq key (drop_key k xs)
    drop_key-IsDistinct k [] d = d
    drop_key-IsDistinct k (a ∷ xs) d = elim (Bool-cases (eq (key a) k)) [
      | inl e ↦ rw e (drop_key-IsDistinct k xs d.1)
      | inr e ↦
          rw e
            (All-drop_key (λ y. eq (key a) (key y) ≡ false) k xs d.0, drop_key-IsDistinct k xs d.1)
    ]

    pub latest-IsDistinct : (s : List A) → IsDistinct eq key (latest s)
    latest-IsDistinct [] = tt
    latest-IsDistinct (a ∷ s) = (
      drop_key-absent (key a) (latest s),
      drop_key-IsDistinct (key a) (latest s) (latest-IsDistinct s),
    )

    abbrev pub listed : Collection eq key
    listed = record {
      State = List A;
      find = find;
      write = λ a s. a ∷ s;
      insert = λ a s. inserted (a ∷ s) (find (key a) s);
      update = λ k q f s. updated f (λ a. a ∷ s) (matching q (find k s));
      upsert = λ a f s. upserted a f (find (key a) s) ∷ s;
      find_where = λ q s. search_from q [] s;
      update_where = λ q f s. updated f (λ a. a ∷ s) (search_from q [] s);
      scan = latest;
      find-write = λ a k s. refl;
      find-key = find-key;
      insert_lem = λ a s. refl;
      update_lem = λ k q f s. refl;
      upsert_lem = λ a f s. refl;
      update_where_lem = λ q f s. refl;
      find_where-some = λ q a s h. let r = search_from-some q a [] s h in (r.0, r.2);
      find-scan = find-latest;
      scan_distinct = latest-IsDistinct;
      find_where-none = λ q k a s h f. search_from-none q k a [] s h refl f;
    }
