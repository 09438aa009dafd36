-- ===== src/Exec/Stable.antt =====
-- Invariants of actions, whatever becomes of their commands: one rule for each way to build one.
use gripe.Common.{suc, ◌≡◌, refl, Bool, true, false, Option, none, some, if◌then◌else◌}
use gripe.Exec.{
  World, Action, Command, Result, ok, err, Outcome, answered, refused, lost, StoreError, concluded,
  pure, raise, gets, modify, exec, now, new_id, ◌>>=◌, if_found, continue,
}
use gripe.Common.{String}

-- From a database with P the action leads to a database with P, returning or failing.
pub record Stable {D A : Type 0} (P : D → Type 0) (m : Action D A) : Type 0 where
  pub stays : (w : World D) → P w.db → P (m w).1.db

module _ {D A : Type 0} {P : D → Type 0} where
  pub Stable-pure : (a : A) → Stable P (pure a)
  unfolding pure
  Stable-pure a = record { stays = λ w h. h }

  pub Stable-raise : (e : StoreError) → Stable P (raise {A = A} e)
  unfolding raise
  Stable-raise e = record { stays = λ w h. h }

  pub Stable-gets : (f : D → A) → Stable P (gets f)
  unfolding gets
  Stable-gets f = record { stays = λ w h. h }

  pub Stable-if :
      (test : Bool) (m n : Action D A)
      → (test ≡ true → Stable P m)
      → (test ≡ false → Stable P n)
      → Stable P (if test then m else n)
  Stable-if test m n first second =
      (elim test
          as (λ b.
            (b ≡ true → Stable P m) → (b ≡ false → Stable P n) → Stable P (if b then m else n)) [
              | true ↦ λ f s. f refl
              | false ↦ λ f s. s refl
            ])
        first second

  concluded_stable :
      (o : Outcome) (r : Option (A × D)) (w : World D)
      → P w.db
      → ((a : A) (d : D) → r ≡ some (a, d) → P d)
      → P (concluded o r w).1.db
  concluded_stable answered none w h k = h
  concluded_stable answered (some (a, d)) w h k = k a d refl
  concluded_stable refused r w h k = h
  concluded_stable lost none w h k = h
  concluded_stable lost (some (a, d)) w h k = k a d refl

  pub Stable-exec :
      (c : Command D A)
      → ((st : D) → P st → (a : A) (d : D) → c st ≡ some (a, d) → P d)
      → Stable P (exec c)
  unfolding exec
  Stable-exec c k = record {
    stays = λ w h.
        concluded_stable (w.outcomes 0) (c w.db) (record w { outcomes = λ n. w.outcomes (suc n) }) h
          (k w.db h);
  }

module _ {D A B : Type 0} {P : D → Type 0} where
  continue_stable :
      (r : Result A) (f : A → Action D B) (w : World D)
      → ((a : A) → Stable P (f a))
      → P w.db
      → P (continue r f w).1.db
  continue_stable (ok a) f w kf h = (kf a).stays w h
  continue_stable (err e) f w kf h = h

  pub Stable-bind :
      (m : Action D A) (f : A → Action D B)
      → Stable P m
      → ((a : A) → Stable P (f a))
      → Stable P (m >>= f)
  unfolding ◌>>=◌
  Stable-bind m f km kf = record {
    stays = λ w h. continue_stable (m w).0 f (m w).1 kf (km.stays w h);
  }

  pub Stable-if_found :
      (o : Option A) (m : Action D B) (f : A → Action D B)
      → Stable P m
      → ((a : A) → Stable P (f a))
      → Stable P (if_found o m f)
  unfolding if_found
  Stable-if_found none m f km kf = km
  Stable-if_found (some a) m f km kf = kf a

module _ {D : Type 0} {P : D → Type 0} where
  pub Stable-now : Stable P now
  unfolding now
  Stable-now = record { stays = λ w h. h }

  pub Stable-modify : (f : D → D) → ((st : D) → P st → P (f st)) → Stable P (modify f)
  unfolding modify
  Stable-modify f k = record { stays = λ w h. k w.db h }

  pub Stable-new_id : (prefix : String) → Stable P (new_id prefix)
  unfolding new_id
  Stable-new_id prefix = record { stays = λ w h. h }

pub ruleset stable_rules = (
  Stable-pure, Stable-raise, Stable-gets, Stable-modify, Stable-now, Stable-new_id, Stable-bind,
  Stable-if, Stable-if_found,
)
