-- ===== src/Exec.antt =====
-- The methods of a store as actions: each command goes to a database server over a network, and may
-- fail there.
pub mod Stable
pub mod Triple
use Prim.Native.String.{◌++◌}
use gripe.Common.{ℕ, suc, String, ◌≡◌, Option, none, some}
use gripe.Domain.{Time}

-- internal/store/store.go, with `driver` for an error of the server, the network or the driver.
pub data StoreError : Type 0 where
  not_found forbidden invalid_state over_refund currency_mismatch idempotency_replay driver :
      StoreError

pub data Result (A : Type 0) : Type 0 where
  ok : A → Result A
  err : StoreError → Result A

-- What becomes of one command: the server answers; the command does not reach it; or the command is
-- carried out and the answer is lost.
pub data Outcome : Type 0 where
  answered refused lost : Outcome

-- The database, and the outcomes of the commands to come, the readings of the clock to come
-- (`time.Now`) and the random parts of the ids to come (`newID`).
pub record World (D : Type 0) : Type 0 where
  pub db : D
  pub outcomes : ℕ → Outcome
  pub readings : ℕ → Time
  pub random : ℕ → String

abbrev pub Action : Type 0 → Type 0 → Type 0
Action D A = World D → Result A × World D

-- A command to the server; `none` where the server refuses it with an error.
abbrev pub Command : Type 0 → Type 0 → Type 0
Command D A = D → Option (A × D)

module _ {D A : Type 0} where
  unfoldable pub pure : A → Action D A
  pure a w = (ok a, w)

  unfoldable pub raise : StoreError → Action D A
  raise e w = (err e, w)

  -- The process's own memory, with no server in between.
  unfoldable pub gets : (D → A) → Action D A
  gets f w = (ok (f w.db), w)

  abbrev pub concluded : Outcome → Option (A × D) → World D → Result A × World D
  concluded Outcome.answered (some (a, d)) w = (ok a, record w { db = d })
  concluded Outcome.answered none w = (err driver, w)
  concluded Outcome.refused r w = (err driver, w)
  concluded Outcome.lost (some (a, d)) w = (err driver, record w { db = d })
  concluded Outcome.lost none w = (err driver, w)

  unfoldable pub exec : Command D A → Action D A
  exec c w = concluded (w.outcomes 0) (c w.db) (record w { outcomes = λ n. w.outcomes (suc n) })

unfoldable pub modify : {D : Type 0} → (D → D) → Action D Unit
modify f w = (ok tt, record w { db = f w.db })

-- The error as a value, for the switch on it.
unfoldable pub attempt : {D A : Type 0} → Action D A → Action D (Result A)
attempt m w = let (r, w') = m w in (ok r, w')

-- `time.Now().UTC()`
unfoldable pub now : {D : Type 0} → Action D Time
now w = (ok (w.readings 0), record w { readings = λ n. w.readings (suc n) })

-- `newID`: the prefix, an underscore and 12 random bytes in hexadecimal.
unfoldable pub new_id : {D : Type 0} → String → Action D String
new_id prefix w = (ok (prefix ++ ("_" ++ w.random 0)), record w { random = λ n. w.random (suc n) })

-- The ids that the next payment and the next refund get.
abbrev pub new_payment_id : {D : Type 0} → World D → String
new_payment_id w = "pay" ++ ("_" ++ w.random 0)

abbrev pub new_refund_id : {D : Type 0} → World D → String
new_refund_id w = "re" ++ ("_" ++ w.random 0)

module _ {D A B : Type 0} where
  abbrev pub continue : Result A → (A → Action D B) → Action D B
  continue (ok a) f w = f a w
  continue (err e) f w = (err e, w)

  -- The two branches after a query: no document, or one.
  unfoldable pub if_found : Option A → Action D B → (A → Action D B) → Action D B
  if_found none missing found = missing
  if_found (some a) missing found = found a

  infixl 5 ◌>>=◌ ◌>>◌
  -- Opening this opens the other steps too.
  unfoldable pub ◌>>=◌ : Action D A → (A → Action D B) → Action D B
  unfolding pure raise gets modify exec now new_id if_found
  ◌>>=◌ m f w = let (r, w') = m w in continue r f w'

  abbrev pub ◌>>◌ : Action D A → Action D B → Action D B
  m >> n = m >>= λ _. n

-- The server answers every command to come.
abbrev pub IsCalm : {D : Type 0} → World D → Type 0
IsCalm w = (n : ℕ) → w.outcomes n ≡ answered

-- The world after one command that changes nothing.
abbrev pub after_command : {D : Type 0} → World D → World D
after_command w = record w { outcomes = λ n. w.outcomes (suc n) }
