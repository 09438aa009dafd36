-- ===== src/Cycler.antt =====
-- internal/cycler/cycler.go: the worker that charges the due subscriptions.
pub mod Backends
pub mod Charges
pub mod Batches
pub mod Tests
use Prim.Native.String.{◌++◌}
use gripe.Common.{
  ℕ, zero, suc, ◌+◌, ◌*◌, ◌/◌, ◌%◌, ◌^◌, String, Bool, true, false, Option, none, some, List, [],
  ◌∷◌, ltb, eqb, if◌then◌else◌,
}
use gripe.Int.{ℤ, pos, negsuc, leb_ℤ}
use gripe.Domain.{Time, Payment, Subscription, CreatePaymentInput}
use gripe.Domain.Cadence.{advance}
use gripe.Exec.{Action, World, Result, ok, err, attempt, now, pure, ◌>>=◌, ◌>>◌}

-- The interface `Advancer`.
pub record Advancer (D : Type 0) : Type 0 where
  pub due_subscriptions : Time → ℤ → Action D (List Subscription)
  pub create_payment : CreatePaymentInput → String → Action D Payment
  pub advance_subscription : String → ℤ → Time → Action D Unit

-- `interval` is in nanoseconds.
pub record Cycler : Type 0 where
  pub batch : ℤ
  pub interval : ℤ

unfoldable pub new : ℤ → ℤ → Cycler
new batch interval = record {
  batch = if leb_ℤ batch (pos 0) then pos 100 else batch;
  interval = if leb_ℤ interval (pos 0) then pos (10 * 10 ^ 9) else interval;
}

-- The decimal digits of a number, as `%d` prints them; 20 digits are enough for an int64.
digit : ℕ → String
digit n =
    if eqb n 0
    then "0"
    else if eqb n 1
    then "1"
    else if eqb n 2
    then "2"
    else if eqb n 3
    then "3"
    else if eqb n 4
    then "4"
    else if eqb n 5
    then "5"
    else if eqb n 6
    then "6"
    else if eqb n 7
    then "7"
    else if eqb n 8
    then "8"
    else "9"

digits : ℕ → ℕ → String
unfolding digit
digits zero n = ""
digits (suc places) n =
    let more = digits places (n / 10) in if ltb n 10 then digit n else more ++ digit (n % 10)

unfoldable pub decimal : ℤ → String
unfolding digits
decimal (pos n) = digits 20 n
decimal (negsuc n) = "-" ++ digits 20 (suc n)

abbrev pub idem_key : Subscription → String
idem_key sub = "sub-" ++ (sub.id ++ ("-cycle-" ++ decimal sub.next_cycle_idx))

abbrev pub charge_of : Subscription → CreatePaymentInput
charge_of sub = record {
  merchant_id = sub.merchant_id;
  customer_id = sub.customer_id;
  amount_minor = sub.amount_minor;
  currency = sub.currency;
  method = sub.method;
}

-- The count of the loop of Tick, after one more subscription.
abbrev count_if_ok : Result Unit → ℕ → ℕ
count_if_ok (ok u) charged = suc charged
count_if_ok (err e) charged = charged

module _ {D : Type 0} (store : Advancer D) where
  unfoldable pub charge_one : Subscription → Action D Unit
  charge_one sub = do
    p ← store.create_payment (charge_of sub) (idem_key sub)
    store.advance_subscription sub.id sub.next_cycle_idx (advance sub.cadence sub.next_charge_at)

  -- The loop of Tick: a failure is logged, and the next subscription is charged.
  unfoldable pub charge_all : List Subscription → ℕ → Action D ℕ
  unfolding attempt
  charge_all [] charged = pure charged
  charge_all (sub ∷ due) charged = do
    r ← attempt (charge_one sub)
    charge_all due (count_if_ok r charged)

  unfoldable pub tick : Cycler → Action D ℕ
  unfolding charge_all
  tick c = do t ← now; due ← store.due_subscriptions t c.batch; charge_all due 0

  -- Run between two sleeps: ticks that found work follow one another. An error of a tick counts as
  -- no work. `none` is out of fuel.
  unfoldable pub drain : ℕ → Cycler → Action D (Option Unit)
  unfolding tick attempt
  drain zero c = pure none
  drain (suc fuel) c = do
    r ← attempt (tick c)
    (elim r [ ok zero ↦ pure (some tt) | ok (suc n) ↦ drain fuel c | err e ↦ pure (some tt) ])
