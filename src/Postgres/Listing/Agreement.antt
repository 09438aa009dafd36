-- ===== src/Postgres/Listing/Agreement.antt =====
-- The filters of the two stores, on one payment.
use gripe.Common.{
  String, Bool, true, false, List, [], ◌∷◌, ◌++◌, ◌≡◌, ◌∙◌, sym, ap, refl, arith, ◌==◌, ◌&&◌, ◌||◌,
  not, leb, if◌then◌else◌,
}
use mathlib.Core.Bool.{and_assoc}
use gripe.Int.{pos, leb_ℤ, ltb_ℤ}
use gripe.Domain.{Payment, is_zero}
use gripe.Domain.Views.{Filters, currency_text, method_text, status_text}
use gripe.Mongo
use gripe.Mongo.{PaymentDoc}
use gripe.Mongo.Listing.{matches}
use gripe.Postgres
use gripe.Postgres.{PaymentRow}
use gripe.Postgres.Listing.{Condition, conditions, scope_conditions, condition_if, all_hold}

abbrev pub if_set : Bool → Bool → Bool
if_set test b = if test then b else true

-- The filters of a listing on a payment, each by itself.
abbrev pub wanted_scope : String → Filters → Payment → Bool
wanted_scope scope f p =
    if not (scope == "")
    then p.merchant_id == scope
    else if not (f.merchant_id == "")
    then p.merchant_id == f.merchant_id
    else true

unfoldable pub wanted : String → Filters → Payment → Bool
wanted scope f p =
    wanted_scope scope f p
    && if_set (not (f.status == "")) (status_text p.status == f.status)
    && if_set (not (f.method == "")) (method_text p.method == f.method)
    && if_set (not (f.currency == "")) (currency_text p.currency == f.currency)
    && if_set (not (is_zero f.from_time)) (leb f.from_time p.created_at)
    && if_set (not (is_zero f.to_time)) (leb p.created_at f.to_time)
    && if_set (ltb_ℤ (pos 0) f.min_minor) (leb_ℤ f.min_minor p.amount_minor)
    && if_set (ltb_ℤ (pos 0) f.max_minor) (leb_ℤ p.amount_minor f.max_minor)

-- The outer test of a range repeats the tests of its ends.
ends :
    (s t a b : Bool)
    → (if s || t then if_set s a && if_set t b else true) ≡ (if_set s a && if_set t b)
ends true t a b = refl
ends false true a b = refl
ends false false a b = refl

pub matches-wanted :
    (scope : String) (f : Filters) (d : PaymentDoc)
    → matches scope f d ≡ wanted scope f (Mongo.to_domain d)
unfolding matches wanted
matches-wanted scope f d = simp (ends, and_assoc)

module _ (r : PaymentRow) where
  all_hold-append :
      (cs ds : List Condition) → all_hold (cs ++ ds) r ≡ (all_hold cs r && all_hold ds r)
  unfolding all_hold
  all_hold-append [] ds = refl
  all_hold-append (c ∷ cs) ds =
      ap (λ b. c r && b) (all_hold-append cs ds)
      ∙ sym (and_assoc (c r) (all_hold cs r) (all_hold ds r))

  all_hold-condition_if :
      (t : Bool) (c : Condition) → all_hold (condition_if t c) r ≡ if_set t (c r)
  unfolding all_hold condition_if
  all_hold-condition_if true c = and_true (c r)
    where
      and_true : (b : Bool) → (b && true) ≡ b
      and_true true = refl
      and_true false = refl
  all_hold-condition_if false c = refl

  all_hold-scope :
      (scope : String) (f : Filters)
      → all_hold (scope_conditions scope f) r ≡ wanted_scope scope f (Postgres.to_payment r)
  unfolding all_hold condition_if scope_conditions
  all_hold-scope scope f = ground arith

  pub all_hold-wanted :
      (scope : String) (f : Filters)
      → all_hold (conditions scope f) r ≡ wanted scope f (Postgres.to_payment r)
  unfolding conditions wanted
  all_hold-wanted scope f = simp (all_hold-append, all_hold-scope, all_hold-condition_if, and_assoc)

-- A document and a row that stand for one payment are admitted by the same filters, in the same
-- scope, of a listing.
pub matches-all_hold :
    (scope : String) (f : Filters) (d : PaymentDoc) (r : PaymentRow)
    → Mongo.to_domain d ≡ Postgres.to_payment r
    → matches scope f d ≡ all_hold (conditions scope f) r
matches-all_hold scope f d r same =
    matches-wanted scope f d ∙ ap (wanted scope f) same ∙ sym (all_hold-wanted r scope f)
