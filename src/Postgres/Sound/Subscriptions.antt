-- ===== src/Postgres/Sound/Subscriptions.antt =====
-- store/postgres/store.go: CreateSubscription, CancelSubscription, DueSubscriptions and
-- AdvanceSubscription, and the links between the tables and the cache of actors.
use mathlib.Core.Path.{subst}
use gripe.Common.{
  String, ◌≡◌, refl, sym, ap, ◌∙◌, Bool, true, false, ◌&&◌, Option, none, some, arith,
  if◌then◌else◌,
}
use gripe.Int.{ℤ}
use gripe.Domain.{Time, CreateSubscriptionInput, is_zero}
use gripe.Storage.{inserted, updated, matching}
use gripe.Exec.{raise, invalid_state, not_found}
use gripe.Exec.Triple.{
  Gives-if, Triple, Triple-pure, Triple-raise, Triple-bind, Triple-if, Triple-if_found,
  Triple-modify, Triple-now, Triple-new_id,
}
use gripe.Postgres.{Server, Store, Tables, SubscriptionRow, exists, pool_exec}
use gripe.Postgres.Create.{mark_seen}
use gripe.Postgres.Subscriptions.{
  refuses_subscription, new_subscription, set_cancelled, is_at_cycle, set_next_cycle, due_limit,
  insert_subscription, with_subscriptions, update_subscription, select_due, start_of,
  create_subscription, cancel_subscription, due_subscriptions, advance_subscription,
}
use gripe.Postgres.Sound.{IsSound, Within, write_subscription-IsSound}
use gripe.Postgres.Sound.Commands.{
  TxGives, tx_exec-Triple, pool_exec-Triple, begin-Triple, commit_with-Triple,
}
use gripe.Postgres.Sound.Create.{HasActors, upsert_parties-Triple, mark_seen-IsSound}

-- An UPDATE of `subscriptions` that leaves the merchant and the customer as they are.
abbrev KeepsParties : (SubscriptionRow → SubscriptionRow) → Type 0
KeepsParties f =
    (r : SubscriptionRow)
    → ((f r).merchant_id ≡ r.merchant_id) × ((f r).customer_id ≡ r.customer_id)

module _ (S : Server) where
  inserted_subscription-TxGives :
      (r : SubscriptionRow) (st : Store S) (tx : Tables S) (o : Option S.subscriptions.State)
      → o
        ≡ inserted
            (S.subscriptions.write r tx.subscriptions)
            (S.subscriptions.find r.id tx.subscriptions)
      → HasActors S r.merchant_id r.customer_id tx
      → Within S tx st
      → TxGives S st
          (λ _. HasActors S r.merchant_id r.customer_id)
          (elim o [ none ↦ none | some s ↦ some (tt, record tx { subscriptions = s }) ])
  inserted_subscription-TxGives r st tx none e there h = tt
  inserted_subscription-TxGives r st tx (some s) e there h =
      let same : s ≡ S.subscriptions.write r tx.subscriptions = ground arith in
      (
        subst (λ s. Within S (record tx { subscriptions = s }) st) (sym same)
            (write_subscription-IsSound S r (record st { tables = tx }) there.0 there.1 h),
        there,
      )

  insert_subscription-TxGives :
      (r : SubscriptionRow) (st : Store S) (tx : Tables S)
      → Within S tx st
      → TxGives S st (λ _. HasActors S r.merchant_id r.customer_id) (insert_subscription S r tx)
  insert_subscription-TxGives r st tx h =
      Gives-if (λ a t. Within S t st × HasActors S r.merchant_id r.customer_id t)
        (exists (S.merchants.find r.merchant_id tx.merchants)
          && exists (S.customers.find r.customer_id tx.customers))
        _
        λ there.
          inserted_subscription-TxGives r st tx (S.subscriptions.insert r tx.subscriptions)
            (S.subscriptions.insert_lem r tx.subscriptions) (ground arith, ground arith) h

  updated_subscription-Within :
      (id : String) (q : SubscriptionRow → Bool) (f : SubscriptionRow → SubscriptionRow)
      → KeepsParties f
      → (st : Store S) (found : Option SubscriptionRow)
      → S.subscriptions.find id st.tables.subscriptions ≡ found
      → IsSound S st
      → Within S
          (with_subscriptions S st.tables
            (updated f (λ r. S.subscriptions.write r st.tables.subscriptions) (matching q found))).1
          st
  updated_subscription-Within id q f kept st none e h = h
  updated_subscription-Within id q f kept st (some r) e h =
      let (merchant, customer) = h.subscriber_of id r e in
      elim (q r)
        as (λ b.
          Within S
            (with_subscriptions S st.tables (
              updated f (λ r. S.subscriptions.write r st.tables.subscriptions)
                (if b then some r else none))).1
            st) [
              | true ↦
                  write_subscription-IsSound S (f r) st
                    (ap (λ m. exists (S.merchants.find m st.tables.merchants)) (kept r).0
                      ∙ merchant)
                    (ap (λ m. exists (S.customers.find m st.tables.customers)) (kept r).1
                      ∙ customer)
                    h
              | false ↦ h
            ]

  update_subscription-Triple :
      (id : String) (q : SubscriptionRow → Bool) (f : SubscriptionRow → SubscriptionRow)
      {pre : Store S → Type 0}
      → KeepsParties f
      → Triple (IsSound S) pre (pool_exec S (update_subscription S id q f)) (λ _ _. Unit)
  update_subscription-Triple id q f kept =
      pool_exec-Triple S (λ _ _. Unit) (update_subscription S id q f)
        λ st i. rw (S.subscriptions.update_lem id q f st.tables.subscriptions) (
          updated_subscription-Within id q f kept st
              (S.subscriptions.find id st.tables.subscriptions) refl i,
          tt,
        )

  start_of-Triple : (start : Time) → Triple (IsSound S) (λ _. Unit) (start_of S start) (λ _ _. Unit)
  start_of-Triple start =
      Triple-if (is_zero start) _ _ (λ _. Triple-now) (λ _. Triple-pure start (λ st i h. tt))

  pub create_subscription-Triple :
      (input : CreateSubscriptionInput)
      → Triple (IsSound S) (λ _. Unit) (create_subscription S input) (λ _ _. Unit)
  unfolding create_subscription
  create_subscription-Triple input =
      Triple-if (refuses_subscription input) (raise invalid_state) _
        (λ _. Triple-raise invalid_state)
        λ _. Triple-bind _ _ (start_of-Triple input.start_at) λ start.
          Triple-bind _ _ Triple-now λ t. Triple-bind _ _ (Triple-new_id "sub") λ id.
            Triple-bind _ _ (begin-Triple S) λ tx.
              Triple-bind _ _ (upsert_parties-Triple S input.merchant_id input.customer_id tx)
                λ onboarded.
                  Triple-bind _ _
                    (tx_exec-Triple S (λ _. HasActors S input.merchant_id input.customer_id)
                      (insert_subscription S (new_subscription id start t input)) onboarded.1
                      λ st h.
                        insert_subscription-TxGives (new_subscription id start t input) st
                          onboarded.1 h)
                    λ inserted.
                      Triple-bind _ _
                        (commit_with-Triple S (HasActors S input.merchant_id input.customer_id)
                          inserted.1)
                        λ _.
                          Triple-bind _ _
                            (Triple-modify {post = λ _ _. Unit}
                              (mark_seen S input.merchant_id input.customer_id)
                              λ st i h. (
                                mark_seen-IsSound S input.merchant_id input.customer_id st h i,
                                tt,
                              ))
                            λ _. Triple-pure _ (λ st i h. tt)

  pub cancel_subscription-Triple :
      (id : String) → Triple (IsSound S) (λ _. Unit) (cancel_subscription S id) (λ _ _. Unit)
  unfolding cancel_subscription
  cancel_subscription-Triple id = Triple-bind _ _ Triple-now λ t.
      Triple-bind _ _
        (update_subscription-Triple id (λ r. true) (set_cancelled t) λ r. (refl, refl))
        λ found.
          Triple-if_found found _ _ (λ _. Triple-raise not_found)
            λ r e. Triple-pure _ (λ st i h. tt)

  pub due_subscriptions-Triple :
      (as_of : Time) (limit : ℤ)
      → Triple (IsSound S) (λ _. Unit) (due_subscriptions S as_of limit) (λ _ _. Unit)
  unfolding due_subscriptions
  due_subscriptions-Triple as_of limit =
      Triple-bind _ _
        (pool_exec-Triple S (λ _ _. Unit) (select_due S as_of (due_limit limit)) λ st i. (i, tt))
        λ rows. Triple-pure _ (λ st i h. tt)

  pub advance_subscription-Triple :
      (id : String) (idx : ℤ) (next_charge_at : Time)
      → Triple (IsSound S) (λ _. Unit) (advance_subscription S id idx next_charge_at) (λ _ _. Unit)
  unfolding advance_subscription
  advance_subscription-Triple id idx next_charge_at = Triple-bind _ _ Triple-now λ t.
      Triple-bind _ _
        (update_subscription-Triple id (is_at_cycle idx) (set_next_cycle idx next_charge_at t)
          λ r. (refl, refl))
        λ found. Triple-pure tt (λ st i h. tt)
