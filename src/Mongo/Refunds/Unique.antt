-- ===== src/Mongo/Refunds/Unique.antt =====
-- Refunds by their ids, where no two refunds have one id, whatever payments they are embedded in.
use mathlib.Core.Path.{subst}
use gripe.Common.{
  String, ◌≡◌, refl, sym, ap, ◌∙◌, ◌==◌, true, false, some, none, Option, Bool-cases, if◌then◌else◌,
  eq_iff, inl, inr, Option-cases, arith,
}
use gripe.Domain.{Time}
use gripe.Mongo.{Server, PaymentDoc}
use gripe.Mongo.Refunds.{any_refund, has_id, set_refund_settled}
use gripe.Mongo.Refunds.Elements.{Distinct, any-settle_element, Distinct-settle_element}

-- No two payments share a refund's id, no payment has one twice, and no id is empty.
pub record HasUniqueRefunds (S : Server) (s : S.payments.State) : Type 0 where
  pub one_payment :
      (k : String) (d : PaymentDoc) (k' : String) (d' : PaymentDoc) (i : String)
      → S.payments.find k s ≡ some d
      → S.payments.find k' s ≡ some d'
      → any_refund (has_id i) d.refunds ≡ true
      → any_refund (has_id i) d'.refunds ≡ true
      → d ≡ d'
  pub distinct : (k : String) (d : PaymentDoc) → S.payments.find k s ≡ some d → Distinct d.refunds
  pub named :
      (k : String) (d : PaymentDoc)
      → S.payments.find k s ≡ some d
      → any_refund (has_id "") d.refunds ≡ false

module _ (S : Server) where
  -- Where the refunds are unique, the payment that has a refund is the one that a search finds.
  find_where-owner :
      (s : S.payments.State) (k i : String) (d : PaymentDoc)
      → HasUniqueRefunds S s
      → S.payments.find k s ≡ some d
      → any_refund (has_id i) d.refunds ≡ true
      → S.payments.find_where (λ p. any_refund (has_id i) p.refunds) s ≡ some d
  find_where-owner s k i d unique found has =
      let q = λ (p : PaymentDoc). any_refund (has_id i) p.refunds in
      elim (Option-cases (S.payments.find_where q s)) [
        | inl nowhere ↦
            absurd (let no = S.payments.find_where-none q k d s nowhere found in ground arith)
        | inr (y, somewhere) ↦
            let (has', found') = S.payments.find_where-some q y s somewhere in
            somewhere ∙ ap some (unique.one_payment y.id y k d i found' found has' has)
      ]

module _ (S : Server) (id : String) (t : Time) (d : PaymentDoc) where
  -- A document after the settlement of a refund of `d`.
  abbrev pub moved : PaymentDoc → PaymentDoc
  moved y = if d.id == y.id then set_refund_settled id t d else y

  abbrev pub moved_in : Option PaymentDoc → Option PaymentDoc
  moved_in none = none
  moved_in (some y) = some (moved y)

  find-settled :
      (k : String) (s : S.payments.State)
      → S.payments.find d.id s ≡ some d
      → S.payments.find k (S.payments.write (set_refund_settled id t d) s)
        ≡ moved_in (S.payments.find k s)
  find-settled k s found =
      let put = S.payments.find-write (set_refund_settled id t d) k s in
      elim (Option-cases (S.payments.find k s)) [
        | inl missing ↦ ground (arith, eq_iff d.id k)
        | inr (y, there) ↦ ground (
          arith,
          eq_iff d.id k,
          eq_iff d.id d.id,
          eq_iff d.id y.id,
          eq_iff y.id k,
          S.payments.find-key k y s there,
        )
      ]

  -- Each document comes from one with the same refunds' ids.
  comes_from :
      (k : String) (x : PaymentDoc) (o : Option PaymentDoc)
      → moved_in o ≡ some x
      → (y : PaymentDoc) × (o ≡ some y) × (x ≡ moved y)
  comes_from k x none e = absurd (ground arith)
  comes_from k x (some y) e = (y, refl, ground arith)

  module _ (s : S.payments.State) (unique : HasUniqueRefunds S s)
      (found : S.payments.find d.id s ≡ some d) where
    same_ids :
        (k i : String) (y : PaymentDoc)
        → S.payments.find k s ≡ some y
        → any_refund (has_id i) (moved y).refunds ≡ any_refund (has_id i) y.refunds
    same_ids k i y there = elim (Bool-cases (d.id == y.id)) [
      | inl same ↦
          let key = S.payments.find-key k y s there in
          ground (arith, eq_iff d.id y.id, eq_iff y.id k, any-settle_element id i d.refunds)
      | inr other ↦ ground arith
    ]

    moved-Distinct :
        (k : String) (y : PaymentDoc) → S.payments.find k s ≡ some y → Distinct (moved y).refunds
    moved-Distinct k y there =
        elim (d.id == y.id)
          as (λ b. Distinct (if b then set_refund_settled id t d else y).refunds) [
            | true ↦ Distinct-settle_element id d.refunds (unique.distinct d.id d found)
            | false ↦ unique.distinct k y there
          ]

    origin :
        (k : String) (x : PaymentDoc)
        → S.payments.find k (S.payments.write (set_refund_settled id t d) s) ≡ some x
        → (y : PaymentDoc) × (S.payments.find k s ≡ some y) × (x ≡ moved y)
    origin k x e = comes_from k x (S.payments.find k s) (sym (find-settled k s found) ∙ e)

    pub settled-HasUniqueRefunds :
        HasUniqueRefunds S (S.payments.write (set_refund_settled id t d) s)
    settled-HasUniqueRefunds = record {
      one_payment = λ k x k' x' i e e' has has'.
          let (y, there, from) = origin k x e in
          let (y', there', from') = origin k' x' e' in
          let h =
            sym (same_ids k i y there)
            ∙ (ap (λ (p : PaymentDoc). any_refund (has_id i) p.refunds) (sym from) ∙ has) in
          let h' =
            sym (same_ids k' i y' there')
            ∙ (ap (λ (p : PaymentDoc). any_refund (has_id i) p.refunds) (sym from') ∙ has') in
          from ∙ (ap moved (unique.one_payment k y k' y' i there there' h h') ∙ sym from');
      distinct = λ k x e.
          let (y, there, from) = origin k x e in
          subst (λ (p : PaymentDoc). Distinct p.refunds) (sym from) (moved-Distinct k y there);
      named = λ k x e.
          let (y, there, from) = origin k x e in
          ap (λ (p : PaymentDoc). any_refund (has_id "") p.refunds) from
          ∙ (same_ids k "" y there ∙ unique.named k y there);
    }

    pub find_where-settled :
        (i : String)
        → let q = λ (p : PaymentDoc). any_refund (has_id i) p.refunds in
          S.payments.find_where q (S.payments.write (set_refund_settled id t d) s)
          ≡ moved_in (S.payments.find_where q s)
    find_where-settled i =
        let q = λ (p : PaymentDoc). any_refund (has_id i) p.refunds in
        let after = S.payments.write (set_refund_settled id t d) s in
        elim (Option-cases (S.payments.find_where q s)) [
          | inl nowhere ↦ elim (Option-cases (S.payments.find_where q after)) [
            | inl still ↦ still ∙ sym (ap moved_in nowhere)
            | inr (x, somewhere) ↦ absurd (
                let (has, e) = S.payments.find_where-some q x after somewhere in
                let (y, there, from) = origin x.id x e in
                let no = S.payments.find_where-none q x.id y s nowhere there in
                let yes =
                  sym (same_ids x.id i y there)
                  ∙ (ap (λ (p : PaymentDoc). any_refund (has_id i) p.refunds) (sym from) ∙ has) in
                ground arith)
          ]
          | inr (y, somewhere) ↦
              let (has, there) = S.payments.find_where-some q y s somewhere in
              find_where-owner S after y.id i (moved y) settled-HasUniqueRefunds
                (find-settled y.id s found ∙ ap moved_in there) (same_ids y.id i y there ∙ has)
              ∙ sym (ap moved_in somewhere)
        ]
