-- ===== src/Postgres/Sound/Commands.antt =====
-- The commands of the PostgreSQL store and the steps of a transaction, and the links between the
-- tables.
use gripe.Common.{String, ◌≡◌, refl, ap, ◌∙◌, Bool, true, false, Option, none, some, if◌then◌else◌}
use gripe.Storage.{updated, matching}
use gripe.Exec.{Command}
use gripe.Exec.Triple.{Triple, Triple-exec, Triple-weaken, Gives}
use gripe.Postgres.{
  Server, Store, Tables, PaymentRow, exists, begin, tx_exec, commit, pool_exec, in_tx, committed,
  with_payments, update_payment,
}
use gripe.Postgres.Sound.{IsSound, Within, KeepsActors, write_payment-IsSound}

module _ (S : Server) where
  update_payment-Within :
      (id : String) (q : PaymentRow → Bool) (f : PaymentRow → PaymentRow)
      → KeepsActors f
      → (st : Store S) (found : Option PaymentRow) → S.payments.find id st.tables.payments ≡ found
      → IsSound S st
      → Within S
          (with_payments S st.tables
            (updated f (λ r. S.payments.write r st.tables.payments) (matching q found))).1
          st
  update_payment-Within id q f kept st none e h = h
  update_payment-Within id q f kept st (some r) e h =
      elim (q r)
        as (λ b.
          Within S
            (with_payments S st.tables (
              updated f (λ r. S.payments.write r st.tables.payments)
                (if b then some r else none))).1
            st) [
              | true ↦
                  write_payment-IsSound S (f r) st
                    (ap (λ m. exists (S.merchants.find m st.tables.merchants))
                        (kept.same_merchant r)
                      ∙ h.merchant_of id r e)
                    (ap (λ m. exists (S.customers.find m st.tables.customers))
                        (kept.same_customer r)
                      ∙ h.customer_of id r e)
                    (λ fee. kept.fee_not_zero r fee λ x. h.fee_set id r x e) h
              | false ↦ h
            ]

  -- A command inside a transaction, and one of the pool, that keep the links.
  abbrev pub TxGives :
      {A : Type 0} → Store S → (A → Tables S → Type 0) → Option (A × Tables S) → Type 0
  TxGives st post = Gives λ a tx. Within S tx st × post a tx

  pub update_payment-TxGives :
      (id : String) (q : PaymentRow → Bool) (f : PaymentRow → PaymentRow)
      → KeepsActors f
      → (st : Store S) → IsSound S st
      → TxGives st (λ _ _. Unit) (update_payment S id q f st.tables)
  update_payment-TxGives id q f kept st h =
      rw (S.payments.update_lem id q f st.tables.payments)
        (update_payment-Within id q f kept st (S.payments.find id st.tables.payments) refl h, tt)

  in_tx-Gives :
      {A : Type 0} (post : A → Tables S → Type 0) (st : Store S) (r : Option (A × Tables S))
      → IsSound S st
      → TxGives st post r
      → Gives (λ x st'. IsSound S st' × (Within S x.1 st' × post x.0 x.1)) (in_tx S st r)
  in_tx-Gives post st none i h = tt
  in_tx-Gives post st (some (a, tx)) i h = (i, h)

  committed-Gives :
      {A : Type 0} (post : A → Tables S → Type 0) (st : Store S) (r : Option (A × Tables S))
      → TxGives st post r
      → Gives (λ a st'. IsSound S st' × Unit) (committed S st r)
  committed-Gives post st none h = tt
  committed-Gives post st (some (a, tx)) h = (h.0, tt)

  pub tx_exec-Triple :
      {A : Type 0} (post : A → Tables S → Type 0) (c : Command (Tables S) A) (tx : Tables S)
      → ((st : Store S) → Within S tx st → TxGives st post (c tx))
      → Triple (IsSound S) (Within S tx) (tx_exec S c tx) (λ x st. Within S x.1 st × post x.0 x.1)
  unfolding tx_exec
  tx_exec-Triple post c tx k =
      Triple-exec (λ st. in_tx S st (c tx)) λ st i h. in_tx-Gives post st (c tx) i (k st h)

  pub pool_exec-Triple :
      {A : Type 0} {pre : Store S → Type 0} (post : A → Tables S → Type 0)
      (c : Command (Tables S) A)
      → ((st : Store S) → IsSound S st → TxGives st post (c st.tables))
      → Triple (IsSound S) pre (pool_exec S c) (λ _ _. Unit)
  unfolding pool_exec
  pool_exec-Triple post c k =
      Triple-exec (λ st. committed S st (c st.tables))
        λ st i h. committed-Gives post st (c st.tables) (k st i)

  pub begin-Triple : {pre : Store S → Type 0} → Triple (IsSound S) pre (begin S) (Within S)
  unfolding begin
  begin-Triple = Triple-exec (λ st. some (st.tables, st)) λ st i h. (i, i)

  pub commit-Triple : (tx : Tables S) → Triple (IsSound S) (Within S tx) (commit S tx) (λ _ _. Unit)
  unfolding commit
  commit-Triple tx = Triple-exec (λ st. some (tt, record st { tables = tx })) λ st i h. (h, tt)

  -- A fact about the transaction's tables is one about the committed ones.
  pub commit_with-Triple :
      (Fact : Tables S → Type 0) (tx : Tables S)
      → Triple (IsSound S) (λ st. Within S tx st × Fact tx) (commit S tx) (λ _ st. Fact st.tables)
  unfolding commit
  commit_with-Triple Fact tx =
      Triple-exec (λ st. some (tt, record st { tables = tx })) λ st i h. (h.0, h.1)

  -- The commands that need only the links.
  pub linked_tx-Triple :
      {A : Type 0} (c : Command (Tables S) A) (tx : Tables S)
      → ((st : Store S) → Within S tx st → TxGives st (λ _ _. Unit) (c tx))
      → Triple (IsSound S) (Within S tx) (tx_exec S c tx) (λ x. Within S x.1)
  linked_tx-Triple c tx k =
      Triple-weaken (λ x st. Within S x.1 st × Unit) (λ x. Within S x.1) (λ x st h. h.0)
        (tx_exec S c tx) (tx_exec-Triple (λ _ _. Unit) c tx k)

  pub update_tx-Triple :
      (id : String) (q : PaymentRow → Bool) (f : PaymentRow → PaymentRow) (tx : Tables S)
      → KeepsActors f
      → Triple
          (IsSound S)
          (Within S tx)
          (tx_exec S (update_payment S id q f) tx)
          (λ x. Within S x.1)
  update_tx-Triple id q f tx kept =
      linked_tx-Triple (update_payment S id q f) tx
        λ st h. update_payment-TxGives id q f kept (record st { tables = tx }) h

  pub update_pool-Triple :
      (id : String) (q : PaymentRow → Bool) (f : PaymentRow → PaymentRow) {pre : Store S → Type 0}
      → KeepsActors f
      → Triple (IsSound S) pre (pool_exec S (update_payment S id q f)) (λ _ _. Unit)
  update_pool-Triple id q f kept =
      pool_exec-Triple (λ _ _. Unit) (update_payment S id q f)
        λ st i. update_payment-TxGives id q f kept st i
