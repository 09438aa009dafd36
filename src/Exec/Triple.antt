-- ===== src/Exec/Triple.antt =====
-- What an action needs and what it gives where it returns, beside an invariant that it keeps whatever
-- becomes of its commands: one rule for each way to build an action.
use gripe.Common.{String, suc, ◌≡◌, refl, Bool, true, false, Option, none, some, if◌then◌else◌}
use gripe.Exec.{
  World, Action, Command, Result, ok, err, Outcome, answered, refused, lost, StoreError, concluded,
  pure, raise, gets, modify, exec, now, new_id, ◌>>=◌, if_found, continue,
}

-- Of an action that returned, what its value and the database are like.
abbrev pub Yields : {D A : Type 0} → (A → D → Type 0) → Result A → D → Type 0
Yields post (ok a) d = post a d
Yields post (err e) d = Unit

-- Of a command that the server carries out, the same; one that it refuses changes nothing.
abbrev pub Gives : {D A : Type 0} → (A → D → Type 0) → Option (A × D) → Type 0
Gives post none = Unit
Gives post (some (a, d)) = post a d

pub Gives-if :
    {D A : Type 0} (post : A → D → Type 0) (test : Bool) (r : Option (A × D))
    → (test ≡ true → Gives post r)
    → Gives post (if test then r else none)
Gives-if post true r h = h refl
Gives-if post false r h = tt

pub record Triple {D A : Type 0} (I pre : D → Type 0) (m : Action D A) (post : A → D → Type 0)
    : Type 0 where
  pub holds : (w : World D) → I w.db → pre w.db → I (m w).1.db × Yields post (m w).0 (m w).1.db

module _ {D A : Type 0} (I : D → Type 0) (post : A → D → Type 0) where
  concluded_triple :
      (o : Outcome) (r : Option (A × D)) (w : World D)
      → I w.db
      → Gives (λ a d. I d × post a d) r
      → I (concluded o r w).1.db × Yields post (concluded o r w).0 (concluded o r w).1.db
  concluded_triple answered none w i h = (i, tt)
  concluded_triple answered (some (a, d)) w i h = h
  concluded_triple refused r w i h = (i, tt)
  concluded_triple lost none w i h = (i, tt)
  concluded_triple lost (some (a, d)) w i h = (h.0, tt)

module _ {D A : Type 0} {I pre : D → Type 0} {post : A → D → Type 0} where
  pub Triple-pure : (a : A) → ((d : D) → I d → pre d → post a d) → Triple I pre (pure a) post
  unfolding pure
  Triple-pure a k = record { holds = λ w i p. (i, k w.db i p) }

  pub Triple-raise : (e : StoreError) → Triple I pre (raise e) post
  unfolding raise
  Triple-raise e = record { holds = λ w i p. (i, tt) }

  pub Triple-if :
      (test : Bool) (m n : Action D A)
      → (test ≡ true → Triple I pre m post)
      → (test ≡ false → Triple I pre n post)
      → Triple I pre (if test then m else n) post
  Triple-if true m n first second = first refl
  Triple-if false m n first second = second refl

  pub Triple-exec :
      (c : Command D A)
      → ((d : D) → I d → pre d → Gives (λ a d'. I d' × post a d') (c d))
      → Triple I pre (exec c) post
  unfolding exec
  Triple-exec c k = record {
    holds = λ w i p.
        concluded_triple I post (w.outcomes 0) (c w.db)
          (record w { outcomes = λ n. w.outcomes (suc n) }) i (k w.db i p);
  }

module _ {D A B : Type 0} {I : D → Type 0} {mid : A → D → Type 0} {post : B → D → Type 0} where
  continue_triple :
      (r : Result A) (f : A → Action D B) (w : World D)
      → ((a : A) → Triple I (mid a) (f a) post)
      → I w.db
      → Yields mid r w.db
      → I (continue r f w).1.db × Yields post (continue r f w).0 (continue r f w).1.db
  continue_triple (ok a) f w kf i h = (kf a).holds w i h
  continue_triple (err e) f w kf i h = (i, tt)

module _ {D A B : Type 0} {I pre : D → Type 0} {mid : A → D → Type 0} {post : B → D → Type 0} where
  pub Triple-bind :
      (m : Action D A) (f : A → Action D B)
      → Triple I pre m mid
      → ((a : A) → Triple I (mid a) (f a) post)
      → Triple I pre (m >>= f) post
  unfolding ◌>>=◌
  Triple-bind m f km kf = record {
    holds = λ w i p. let (i', h) = km.holds w i p in continue_triple (m w).0 f (m w).1 kf i' h;
  }

module _ {D A : Type 0} (mid post : A → D → Type 0)
    (weaker : (a : A) (d : D) → mid a d → post a d) where
  Yields-weaken : (r : Result A) (d : D) → Yields mid r d → Yields post r d
  Yields-weaken (ok a) d h = weaker a d h
  Yields-weaken (err e) d h = tt

  pub Triple-weaken :
      {I pre : D → Type 0} (m : Action D A) → Triple I pre m mid → Triple I pre m post
  Triple-weaken m t = record {
    holds = λ w i p. let (i', h) = t.holds w i p in (i', Yields-weaken (m w).0 (m w).1.db h);
  }

module _ {D A B : Type 0} {I pre : D → Type 0} {post : B → D → Type 0} where
  pub Triple-if_found :
      (o : Option A) (m : Action D B) (f : A → Action D B)
      → (o ≡ none → Triple I pre m post)
      → ((a : A) → o ≡ some a → Triple I pre (f a) post)
      → Triple I pre (if_found o m f) post
  unfolding if_found
  Triple-if_found none m f km kf = km refl
  Triple-if_found (some a) m f km kf = kf a refl

module _ {D : Type 0} {I pre : D → Type 0} where
  pub Triple-now : Triple I pre now (λ _. pre)
  unfolding now
  Triple-now = record { holds = λ w i p. (i, p) }

  pub Triple-new_id : (prefix : String) → Triple I pre (new_id prefix) (λ _. pre)
  unfolding new_id
  Triple-new_id prefix = record { holds = λ w i p. (i, p) }

  pub Triple-gets : {A : Type 0} (f : D → A) → Triple I pre (gets f) (λ _. pre)
  unfolding gets
  Triple-gets f = record { holds = λ w i p. (i, p) }

  pub Triple-modify :
      {post : Unit → D → Type 0} (f : D → D)
      → ((d : D) → I d → pre d → I (f d) × post tt (f d))
      → Triple I pre (modify f) post
  unfolding modify
  Triple-modify f k = record { holds = λ w i p. k w.db i p }
