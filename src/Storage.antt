-- ===== src/Storage.antt =====
-- What the stores rely on in their databases: a MongoDB collection with its unique index on `_id`,
-- or a PostgreSQL table with its primary key. The engines are not part of the repository, so a
-- collection is an interface with the documented effect of each command as a law.
pub mod Listed
use gripe.Common.{◌≡◌, Bool, true, false, Option, none, some, List, if◌then◌else◌}
use gripe.Query.{lookup_by, IsDistinct}

-- `{_id: k, ...}` or `WHERE id = k AND ...`: the document, if the rest of the filter holds too.
abbrev pub matching : {A : Type 0} → (A → Bool) → Option A → Option A
matching q none = none
matching q (some a) = if q a then some a else none

-- The document after the update, beside the state with it written.
abbrev pub updated : {A S : Type 0} → (A → A) → (A → S) → Option A → Option (A × S)
updated f write none = none
updated f write (some a) = some (f a, write (f a))

abbrev pub inserted : {A S : Type 0} → S → Option A → Option S
inserted s none = some s
inserted s (some _) = none

abbrev pub upserted : {A : Type 0} → A → (A → A) → Option A → A
upserted a f none = a
upserted a f (some b) = f b

pub record Collection {A K : Type 0} (eq : K → K → Bool) (key : A → K) : Type 1 where
  pub State : Type 0
  -- the document with that key
  pub find : K → State → Option A
  -- the state in which the document is stored under its key
  pub write : A → State → State
  -- InsertOne, INSERT: refused where the key is taken
  pub insert : A → State → Option State
  -- FindOneAndUpdate, UPDATE ... RETURNING, with the key in the filter: test and write are atomic
  pub update : K → (A → Bool) → (A → A) → State → Option (A × State)
  -- UpdateOne with upsert, INSERT ... ON CONFLICT
  pub upsert : A → (A → A) → State → State
  -- the same by any filter
  pub find_where : (A → Bool) → State → Option A
  pub update_where : (A → Bool) → (A → A) → State → Option (A × State)
  -- a scan of the whole collection, in the server's order
  pub scan : State → List A
  pub find-write :
      (a : A) (k : K) (s : State) → find k (write a s) ≡ (if eq (key a) k then some a else find k s)
  pub find-key : (k : K) (a : A) (s : State) → find k s ≡ some a → eq (key a) k ≡ true
  pub insert_lem : (a : A) (s : State) → insert a s ≡ inserted (write a s) (find (key a) s)
  pub update_lem :
      (k : K) (q : A → Bool) (f : A → A) (s : State)
      → update k q f s ≡ updated f (λ a. write a s) (matching q (find k s))
  pub upsert_lem :
      (a : A) (f : A → A) (s : State) → upsert a f s ≡ write (upserted a f (find (key a) s)) s
  pub update_where_lem :
      (q : A → Bool) (f : A → A) (s : State)
      → update_where q f s ≡ updated f (λ a. write a s) (find_where q s)
  pub find_where-some :
      (q : A → Bool) (a : A) (s : State)
      → find_where q s ≡ some a
      → (q a ≡ true) × (find (key a) s ≡ some a)
  pub find_where-none :
      (q : A → Bool) (k : K) (a : A) (s : State)
      → find_where q s ≡ none
      → find k s ≡ some a
      → q a ≡ false
  pub find-scan : (k : K) (s : State) → find k s ≡ lookup_by eq key k (scan s)
  pub scan_distinct : (s : State) → IsDistinct eq key (scan s)
