-- ===== src/Postgres/Sound/Create.antt =====
-- store/postgres/store.go: CreatePayment with upsertParties and markSeen, and the links between the
-- tables and the cache of actors.
use Prim.Native.String.{◌++◌}
use mathlib.Core.Path.{subst}
use mathlib.Core.Bool.{false≢true}
use text.Mathlib.TextLemmas.{append_inj}
use gripe.Common.{
  String, ◌≡◌, refl, sym, true, false, Bool-cases, ◌==◌, ◌&&◌, eq_iff, Option, none, some, arith,
  inl, inr,
}
use gripe.Domain.{Time, CreatePaymentInput}
use gripe.Storage.{inserted}
use gripe.Exec.{raise, invalid_state}
use gripe.Exec.Triple.{
  Gives-if, Triple, Triple-pure, Triple-raise, Triple-bind, Triple-if, Triple-gets, Triple-modify,
  Triple-now, Triple-new_id,
}
use gripe.Postgres.{Server, Store, Tables, PaymentRow, exists}
use gripe.Postgres.Create.{
  refuses, new_payment, contains, upsert_merchant, upsert_customer, upsert_parties, mark_seen,
  insert_payment, create_payment,
}
use gripe.Postgres.Sound.{
  IsSound, Within, write_payment-IsSound, write_merchant-IsSound, write_customer-IsSound,
}
use gripe.Postgres.Sound.Commands.{
  TxGives, tx_exec-Triple, linked_tx-Triple, begin-Triple, commit_with-Triple,
}

-- The keys of the cache tell merchants and customers apart.
merchant_key : (a b : String) → (("m:" ++ a) == ("m:" ++ b)) ≡ true → a ≡ b
merchant_key a b h =
    (append_inj {s₁ = "m:"} {s₂ = "m:"} {t₁ = a} {t₂ = b} ((eq_iff ("m:" ++ a) ("m:" ++ b)).0 h)
      refl).1

customer_key : (a b : String) → (("c:" ++ a) == ("c:" ++ b)) ≡ true → a ≡ b
customer_key a b h =
    (append_inj {s₁ = "c:"} {s₂ = "c:"} {t₁ = a} {t₂ = b} ((eq_iff ("c:" ++ a) ("c:" ++ b)).0 h)
      refl).1

customer_key-apart : (a b : String) → (("c:" ++ a) == ("m:" ++ b)) ≡ false
customer_key-apart a b = elim (Bool-cases (("c:" ++ a) == ("m:" ++ b))) [
  | inl same ↦
      let no =
        (append_inj {s₁ = "c:"} {s₂ = "m:"} {t₁ = a} {t₂ = b}
          ((eq_iff ("c:" ++ a) ("m:" ++ b)).0 same) refl).0 in
      absurd (false≢true ((eq_iff "c:" "m:").1 no))
  | inr apart ↦ apart
]

merchant_key-apart : (a b : String) → (("m:" ++ a) == ("c:" ++ b)) ≡ false
merchant_key-apart a b =
    ground (
      arith,
      customer_key-apart b a,
      eq_iff ("m:" ++ a) ("c:" ++ b),
      eq_iff ("c:" ++ b) ("m:" ++ a),
    )

module _ (S : Server) where
  -- The merchant and the customer have their rows.
  abbrev pub HasActors : String → String → Tables S → Type 0
  HasActors m c t =
      (exists (S.merchants.find m t.merchants) ≡ true)
      × (exists (S.customers.find c t.customers) ≡ true)

  upsert_merchant-TxGives :
      (id : String) (t : Time) (st : Store S) (tx : Tables S)
      → Within S tx st
      → TxGives S st (λ _ _. Unit) (upsert_merchant S id t tx)
  upsert_merchant-TxGives id t st tx h =
      rw (S.merchants.upsert_lem (record { id = id; created_at = t }) (λ r. r) tx.merchants)
        (write_merchant-IsSound S _ (record st { tables = tx }) h, tt)

  upsert_customer-TxGives :
      (id : String) (t : Time) (st : Store S) (tx : Tables S)
      → Within S tx st
      → TxGives S st (λ _ _. Unit) (upsert_customer S id t tx)
  upsert_customer-TxGives id t st tx h =
      rw (S.customers.upsert_lem (record { id = id; created_at = t }) (λ r. r) tx.customers)
        (write_customer-IsSound S _ (record st { tables = tx }) h, tt)

  pub upsert_parties-Triple :
      (m c : String) (tx : Tables S)
      → Triple (IsSound S) (Within S tx) (upsert_parties S m c tx) (λ x. Within S x.1)
  unfolding upsert_parties
  upsert_parties-Triple m c tx =
      Triple-bind _ _ (Triple-gets (λ st. contains ("m:" ++ m) st.seen)) λ merchant_seen.
        Triple-bind _ _
          (Triple-if merchant_seen _ _ (λ _. Triple-pure (tt, tx) (λ st i h. h))
            λ _. Triple-bind _ _ Triple-now λ t.
              linked_tx-Triple S (upsert_merchant S m t) tx
                λ st h. upsert_merchant-TxGives m t st tx h)
          λ first.
            Triple-bind _ _ (Triple-gets (λ st. contains ("c:" ++ c) st.seen)) λ customer_seen.
              Triple-if customer_seen _ _ (λ _. Triple-pure first (λ st i h. h))
                λ _. Triple-bind _ _ Triple-now λ t.
                  linked_tx-Triple S (upsert_customer S c t) first.1
                    λ st h. upsert_customer-TxGives c t st first.1 h

  inserted_payment-TxGives :
      (r : PaymentRow) (st : Store S) (tx : Tables S) (o : Option S.payments.State)
      → o ≡ inserted (S.payments.write r tx.payments) (S.payments.find r.id tx.payments)
      → HasActors r.merchant_id r.customer_id tx
      → r.network_fee_minor ≡ none
      → Within S tx st
      → TxGives S st
          (λ _. HasActors r.merchant_id r.customer_id)
          (elim o [ none ↦ none | some s ↦ some (tt, record tx { payments = s }) ])
  inserted_payment-TxGives r st tx none e there free h = tt
  inserted_payment-TxGives r st tx (some s) e there free h =
      let same : s ≡ S.payments.write r tx.payments = ground arith in
      (
        subst (λ s. Within S (record tx { payments = s }) st) (sym same)
            (write_payment-IsSound S r (record st { tables = tx }) there.0 there.1
              (λ fee is. absurd (ground arith)) h),
        there,
      )

  insert_payment-TxGives :
      (r : PaymentRow) (st : Store S) (tx : Tables S)
      → r.network_fee_minor ≡ none
      → Within S tx st
      → TxGives S st (λ _. HasActors r.merchant_id r.customer_id) (insert_payment S r tx)
  insert_payment-TxGives r st tx free h =
      Gives-if (λ a t. Within S t st × HasActors r.merchant_id r.customer_id t)
        (exists (S.merchants.find r.merchant_id tx.merchants)
          && exists (S.customers.find r.customer_id tx.customers))
        _
        λ there.
          inserted_payment-TxGives r st tx (S.payments.insert r tx.payments)
            (S.payments.insert_lem r tx.payments) (ground arith, ground arith) free h

  pub mark_seen-IsSound :
      (m c : String) (st : Store S)
      → HasActors m c st.tables
      → IsSound S st
      → IsSound S (mark_seen S m c st)
  unfolding contains
  mark_seen-IsSound m c st there h = record {
    merchant_of = h.merchant_of;
    customer_of = h.customer_of;
    payment_of = h.payment_of;
    seen_merchant =
        λ id seen. ground (arith, customer_key-apart c id, merchant_key m id, h.seen_merchant id);
    seen_customer =
        λ id seen. ground (arith, merchant_key-apart m id, customer_key c id, h.seen_customer id);
    subscriber_of = h.subscriber_of;
    fee_set = h.fee_set;
  }

  pub create_payment-Triple :
      (input : CreatePaymentInput) (key : String)
      → Triple (IsSound S) (λ _. Unit) (create_payment S input key) (λ _ _. Unit)
  unfolding create_payment
  create_payment-Triple input key =
      Triple-if (refuses input) (raise invalid_state) _ (λ _. Triple-raise invalid_state)
        λ _. Triple-bind _ _ Triple-now λ t. Triple-bind _ _ (Triple-new_id "pay") λ id.
          Triple-bind _ _ (begin-Triple S) λ tx.
            Triple-bind _ _ (upsert_parties-Triple input.merchant_id input.customer_id tx)
              λ onboarded.
                Triple-bind _ _
                  (tx_exec-Triple S (λ _. HasActors input.merchant_id input.customer_id)
                    (insert_payment S (new_payment id t input)) onboarded.1
                    λ st h. insert_payment-TxGives (new_payment id t input) st onboarded.1 refl h)
                  λ inserted.
                    Triple-bind _ _
                      (commit_with-Triple S (HasActors input.merchant_id input.customer_id)
                        inserted.1)
                      λ _.
                        Triple-bind _ _
                          (Triple-modify {post = λ _ _. Unit}
                            (mark_seen S input.merchant_id input.customer_id)
                            λ st i h.
                              (mark_seen-IsSound input.merchant_id input.customer_id st h i, tt))
                          λ _. Triple-pure _ (λ st i h. tt)
