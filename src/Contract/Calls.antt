-- ===== src/Contract/Calls.antt =====
-- internal/store/store.go: the methods that create and move payments, called one after another, each
-- at its own reading of the clock and with its own random id.
use Prim.Native.String.{◌++◌}
use gripe.Common.{
  String, ◌≡◌, refl, ◌∙◌, ap, Bool, true, false, not, Option, none, some, List, [], ◌∷◌, ◌==◌, ◌&&◌,
  is_blank, if◌then◌else◌,
}
use gripe.Int.{ℤ, pos, leb_ℤ, eqb_ℤ}
use gripe.Int.Word.{rem}
use gripe.Domain.{
  Time, Payment, PaymentMethod, PaymentStatus, Refund, Actor, ActorRole, admin, merchant, customer,
  CreatePaymentInput, currency_valid, method_valid, authorized, captured, pending, declined, card,
  apple_pay, google_pay, direct_debit, bank_transfer,
}
use gripe.Exec.{
  World, Action, answered, Result, ok, err, StoreError, not_found, forbidden, invalid_state, driver,
}
use gripe.Contract.{
  View, Agrees, AgreesRefund, SameView-path, untimed_result, set_payment, capture, settle,
  network_fee, refund,
}

-- The methods by which a payment is created, read and moved. SettleRefund, which moves a ledger and a
-- refund, is not among them: its contract is in Contract/SettleRefund.
pub data Call : Type 0 where
  create : CreatePaymentInput → String → Call
  get : String → Actor → Call
  capture_of settle_of : String → Call
  network_fee_of refund_of : String → ℤ → Call

-- The reading of the clock and the random part of an id that a call finds.
pub record Moment : Type 0 where
  pub time : Time
  pub random : String

abbrev pub payment_id : Moment → String
payment_id e = "pay" ++ ("_" ++ e.random)

abbrev pub refund_id : Moment → String
refund_id e = "re" ++ ("_" ++ e.random)

-- A server that answers, and a clock that stands still for the length of a call.
abbrev pub world_at : {D : Type 0} → Moment → D → World D
world_at e db = record {
  db = db;
  outcomes = λ _. answered;
  readings = λ _. e.time;
  random = λ _. e.random;
}

pub data Answer : Type 0 where
  payment : Payment → Answer
  created_refund : Refund → Answer
  failed : StoreError → Answer

-- Without the times at which payments were created, which the databases keep in units of their own.
abbrev pub undated : Payment → Payment
undated p = record p { created_at = 0 }

abbrev pub undated_answer : Answer → Answer
undated_answer (payment p) = payment (undated p)
undated_answer (created_refund r) = created_refund r
undated_answer (failed e) = failed e

unfoldable pub undated_answers : List Answer → List Answer
undated_answers [] = []
undated_answers (a ∷ as') = undated_answer a ∷ undated_answers as'

abbrev pub undated_found : Option Payment → Option Payment
undated_found none = none
undated_found (some p) = some (undated p)

abbrev pub undated_view : View → View
undated_view v = record v { payment = λ k. undated_found (v.payment k) }

-- A payment is compared but for the time of its last update.
abbrev pub payment_answer : Result Payment → Answer
payment_answer (ok p) = payment p
payment_answer (err e) = failed e

abbrev pub refund_answer : Result Refund → Answer
refund_answer (ok r) = created_refund r
refund_answer (err e) = failed e

abbrev pub is_admissible : CreatePaymentInput → Bool
is_admissible input =
    currency_valid input.currency
    && method_valid input.method
    && not (leb_ℤ input.amount_minor (pos 0))
    && not (is_blank input.merchant_id)
    && not (is_blank input.customer_id)

-- Cards and wallets are captured at once, or declined where the amount ends in 13 minor units.
abbrev pub first_status : PaymentMethod → ℤ → PaymentStatus
first_status card amount = if eqb_ℤ (rem amount 100) (pos 13) then declined else captured
first_status apple_pay amount = if eqb_ℤ (rem amount 100) (pos 13) then declined else captured
first_status google_pay amount = if eqb_ℤ (rem amount 100) (pos 13) then declined else captured
first_status direct_debit amount = authorized
first_status bank_transfer amount = pending
first_status (PaymentMethod.other s) amount = captured

abbrev pub first_payment : String → Time → CreatePaymentInput → Payment
first_payment id t input = record {
  id = id;
  merchant_id = input.merchant_id;
  customer_id = input.customer_id;
  amount_minor = input.amount_minor;
  currency = input.currency;
  method = input.method;
  status = first_status input.method input.amount_minor;
  refunded_minor = pos 0;
  network_fee_minor = pos 0;
  created_at = t;
  updated_at = 0;
}

-- The server refuses a second payment under an id that is taken.
abbrev pub create_payment : String → Time → CreatePaymentInput → View → Result Payment × View
create_payment id t input v =
    if is_admissible input
    then (elim (v.payment id) [
      | none ↦ (let p = first_payment id t input in (ok p, set_payment p v))
      | some _ ↦ (err driver, v)
    ])
    else (err invalid_state, v)

abbrev pub may_see : Actor → Payment → Bool
may_see actor p = elim actor.role [
  | admin ↦ true
  | merchant ↦ p.merchant_id == actor.id
  | customer ↦ p.customer_id == actor.id
  | ActorRole.other s ↦ false
]

abbrev pub get_payment : String → Actor → View → Result Payment × View
get_payment id actor v = elim (v.payment id) [
  | none ↦ (err not_found, v)
  | some p ↦ if may_see actor p then (ok p, v) else (err forbidden, v)
]

abbrev pub on_payment : Result Payment × View → Answer × View
on_payment x = (payment_answer x.0, x.1)

abbrev pub on_refund : Result Refund × View → Answer × View
on_refund x = (refund_answer x.0, x.1)

-- What the contract answers.
abbrev pub promised : Call → Moment → View → Answer × View
promised (create input key) e v = on_payment (create_payment (payment_id e) e.time input v)
promised (get id actor) e v = on_payment (get_payment id actor v)
promised (capture_of id) e v = on_payment (capture id v)
promised (settle_of id) e v = on_payment (settle id v)
promised (network_fee_of id fee) e v = on_payment (network_fee fee id v)
promised (refund_of id amount) e v = on_refund (refund (refund_id e) e.time amount id v)

-- The contract says nothing of a network fee that is not positive: one store refuses it.
abbrev pub IsPlain : Call → Type 0
IsPlain (network_fee_of id fee) = leb_ℤ fee (pos 0) ≡ false
IsPlain _ = Unit

abbrev pub AllPlain : List (Call × Moment) → Type 0
AllPlain [] = Unit
AllPlain ((c, e) ∷ cs) = IsPlain c × AllPlain cs

-- A method at a moment: its answer, and the state that it leaves.
abbrev pub answered_payment : {D : Type 0} → Result Payment × World D → Answer × D
answered_payment x = (payment_answer (untimed_result x.0), x.1.db)

abbrev pub answered_refund : {D : Type 0} → Result Refund × World D → Answer × D
answered_refund x = (refund_answer x.0, x.1.db)

-- A store, or the contract, over any calls: the answers and the state at the end.
module _ {D : Type 0} (step : Call → Moment → D → Answer × D) where
  unfoldable pub run : List (Call × Moment) → D → List Answer × D
  run [] d = ([], d)
  run ((c, e) ∷ cs) d = let (a, d') = step c e d in let (rest, last) = run cs d' in (a ∷ rest, last)

module _ {D : Type 0} (view : D → View) where
  -- The same answer, and the same to be seen afterwards.
  abbrev pub Keeps : {A : Type 0} → A × D → A × View → Type 0
  Keeps x spec = (x.0 ≡ spec.0) × (view x.1 ≡ spec.1)

  pub Agrees-Keeps :
      (m : Action D Payment) (w : World D) (spec : Result Payment × View)
      → Agrees (m w).0 (view (m w).1.db) spec
      → Keeps (answered_payment (m w)) (on_payment spec)
  Agrees-Keeps m w spec (same, v) =
      (ap payment_answer same, SameView-path (view (m w).1.db) spec.1 v)

  -- The same but for the times at which payments were created.
  abbrev pub KeepsUndated : List Answer × D → List Answer × View → Type 0
  KeepsUndated x spec =
      (undated_answers x.0 ≡ undated_answers spec.0)
      × (undated_view (view x.1) ≡ undated_view spec.1)

  pub AgreesRefund-Keeps :
      (m : Action D Refund) (w : World D) (spec : Result Refund × View)
      → AgreesRefund (m w).0 (view (m w).1.db) spec
      → Keeps (answered_refund (m w)) (on_refund spec)
  AgreesRefund-Keeps m w spec (same, v) =
      (ap refund_answer same, SameView-path (view (m w).1.db) spec.1 v)

-- `Ready` is what the calls to come need of the store.
module _ {D : Type 0} (step : Call → Moment → D → Answer × D) (view : D → View)
    (Ready : List (Call × Moment) → D → Type 0)
    (keeps : (c : Call) (e : Moment) (cs : List (Call × Moment)) (d : D)
      → Ready ((c, e) ∷ cs) d
      → Keeps view (step c e d) (promised c e (view d)) × Ready cs (step c e d).1) where
  -- A store whose every call keeps the contract keeps it over any calls.
  run-Keeps :
      (cs : List (Call × Moment)) (d : D)
      → Ready cs d
      → Keeps view (run step cs d) (run promised cs (view d))
  unfolding run
  run-Keeps [] d h = (refl, refl)
  run-Keeps ((c, e) ∷ cs) d h =
      let (kept, next) = keeps c e cs d h in
      let (answer, after) = kept in
      let (rest, last) = run-Keeps cs (step c e d).1 next in
      let answers = rest ∙ ap (λ v. (run promised cs v).0) after in
      (λ i. answer i ∷ answers i, last ∙ ap (λ v. (run promised cs v).1) after)

  pub run-KeepsUndated :
      (cs : List (Call × Moment)) (d : D)
      → Ready cs d
      → KeepsUndated view (run step cs d) (run promised cs (view d))
  run-KeepsUndated cs d h =
      let (answers, seen) = run-Keeps cs d h in (ap undated_answers answers, ap undated_view seen)
