-- ===== src/Mongo/Refunds/Elements.antt =====
-- The refunds embedded in one payment, by their ids.
use gripe.Common.{
  String, ◌≡◌, refl, ◌∙◌, ◌==◌, true, false, some, List, [], ◌∷◌, Bool-cases, if◌then◌else◌, eq_iff,
  inl, inr, arith,
}
use gripe.Domain.{RefundStatus, created, refund_status_eq}
use gripe.Mongo.{RefundElem}
use gripe.Mongo.Refunds.{any_refund, has_id, is_open, settle_element, locate}

abbrev pub Distinct : List RefundElem → Type 0
Distinct [] = Unit
Distinct (r ∷ rs) = (any_refund (has_id r.id) rs ≡ false) × Distinct rs

abbrev pub settled_elem : RefundElem → RefundElem
settled_elem r = record r { status = RefundStatus.settled }

pub locate-some :
    (id : String) (rs : List RefundElem)
    → any_refund (has_id id) rs ≡ true
    → (e : RefundElem) × (locate id rs ≡ some e)
unfolding any_refund locate
locate-some id [] h = absurd (ground arith)
locate-some id (r ∷ rs) h = elim (Bool-cases (r.id == id)) [
  | inl same ↦ (r, ground arith)
  | inr other ↦ let (e, found) = locate-some id rs (ground arith) in (e, ground arith)
]

pub any-locate :
    (id : String) (e : RefundElem) (rs : List RefundElem)
    → locate id rs ≡ some e
    → (any_refund (has_id id) rs ≡ true) × ((e.id == id) ≡ true)
unfolding any_refund locate
any-locate id e [] h = absurd (ground arith)
any-locate id e (r ∷ rs) h = ground (arith, any-locate id e rs)

pub any_open-any :
    (id : String) (rs : List RefundElem)
    → any_refund (is_open id) rs ≡ true
    → any_refund (has_id id) rs ≡ true
unfolding any_refund
any_open-any id [] h = h
any_open-any id (r ∷ rs) h = ground (arith, any_open-any id rs)

pub any-settle_element :
    (id k : String) (rs : List RefundElem)
    → any_refund (has_id k) (settle_element id rs) ≡ any_refund (has_id k) rs
unfolding any_refund settle_element
any-settle_element id k [] = refl
any-settle_element id k (r ∷ rs) = ground (arith, any-settle_element id k rs)

-- The one element with the id decides whether an open one is there.
pub any_open-locate :
    (id : String) (e : RefundElem) (rs : List RefundElem)
    → Distinct rs
    → locate id rs ≡ some e
    → any_refund (is_open id) rs ≡ refund_status_eq e.status created
unfolding any_refund locate
any_open-locate id e [] h found = absurd (ground arith)
any_open-locate id e (r ∷ rs) h found =
    let apart = h.0 in
    ground (arith, eq_iff r.id id, any_open-locate id e rs h.1, any_open-any id rs)

pub locate-settle_element :
    (id : String) (e : RefundElem) (rs : List RefundElem)
    → Distinct rs
    → locate id rs ≡ some e
    → refund_status_eq e.status created ≡ true
    → locate id (settle_element id rs) ≡ some (settled_elem e)
unfolding settle_element locate
locate-settle_element id e [] h found is = absurd (ground arith)
locate-settle_element id e (r ∷ rs) h found is =
    ground (arith, eq_iff r.id id, locate-settle_element id e rs h.1)

pub locate-settle_other :
    (id k : String) (rs : List RefundElem)
    → (id == k) ≡ false
    → locate k (settle_element id rs) ≡ locate k rs
unfolding settle_element locate
locate-settle_other id k [] other = refl
locate-settle_other id k (r ∷ rs) other =
    ground (arith, eq_iff r.id id, eq_iff r.id k, locate-settle_other id k rs other)

pub Distinct-settle_element :
    (id : String) (rs : List RefundElem) → Distinct rs → Distinct (settle_element id rs)
unfolding settle_element
Distinct-settle_element id [] h = tt
Distinct-settle_element id (r ∷ rs) h =
    elim (is_open id r)
      as (λ b. Distinct (if b then settled_elem r ∷ rs else r ∷ settle_element id rs)) [
        | true ↦ h
        | false ↦ (any-settle_element id r.id rs ∙ h.0, Distinct-settle_element id rs h.1)
      ]
