-- ===== src/Postgres/Calls.antt =====
-- The methods that create and move payments, called one after another, against the contract.
use gripe.Common.{
  String, List, [], ◌∷◌, ◌≡◌, refl, true, false, none, eq_iff, inl, inr, Option-cases, arith,
}
use gripe.Int.{ℤ, pos, leb_ℤ, eqb_ℤ}
use gripe.Domain.{Actor}
use gripe.Exec.{World, IsCalm, ◌>>=◌}
use gripe.Contract.{Agrees, network_fee}
use gripe.Contract.Calls
use gripe.Contract.Calls.{
  Call, create, get, capture_of, settle_of, network_fee_of, refund_of, Moment, refund_id, world_at,
  Answer, answered_payment, answered_refund, promised, run, run-KeepsUndated, KeepsUndated, Keeps,
  Agrees-Keeps, AgreesRefund-Keeps, IsPlain, AllPlain,
}
use gripe.Postgres.{Server, Store, select_payment_by_id, pool_exec}
use gripe.Postgres.View.{view, payment_view-write}
use gripe.Postgres.Create.{create_payment}
use gripe.Postgres.Create.Kept.{create_payment-Agrees_postgres}
use gripe.Postgres.Transitions.{
  may_see, has_no_network_fee, set_network_fee, get_payment, capture_payment, settle_payment,
  settle_network_fee,
}
use gripe.Postgres.Transitions.Kept.{
  capture_payment-Agrees_postgres, settle_payment-Agrees_postgres,
}
use gripe.Postgres.Refunds.{refund_payment, sum_fits}
use gripe.Postgres.Refunds.Kept.{refund_payment-AgreesRefund_postgres}
use gripe.Postgres.Sound.{IsSound}
use gripe.Postgres.Sound.Create.{create_payment-Triple}
use gripe.Postgres.Sound.Methods.{
  get_payment-Triple, capture_payment-Triple, settle_payment-Triple, settle_network_fee-Triple,
}
use gripe.Postgres.Sound.Refunds.{refund_payment-Triple}

module _ (S : Server) where
  unfoldable pub answer : Call → Moment → Store S → Answer × Store S
  answer (create input key) e st = answered_payment (create_payment S input key (world_at e st))
  answer (get id actor) e st = answered_payment (get_payment S id actor (world_at e st))
  answer (capture_of id) e st = answered_payment (capture_payment S id (world_at e st))
  answer (settle_of id) e st = answered_payment (settle_payment S id (world_at e st))
  answer (network_fee_of id fee) e st =
      answered_payment (settle_network_fee S id fee (world_at e st))
  answer (refund_of id amount) e st = answered_refund (refund_payment S id amount (world_at e st))

  -- A refund finds its new id free in the table, and adds up to an int64 with what is refunded.
  abbrev pub Fits : Call → Moment → Store S → Type 0
  Fits (refund_of id amount) e st =
      (S.refunds.find (refund_id e) st.tables.refunds ≡ none)
      × (sum_fits amount (S.payments.find id st.tables.payments) ≡ true)
  Fits _ e st = Unit

  unfoldable pub AllFit : List (Call × Moment) → Store S → Type 0
  AllFit [] st = Unit
  AllFit ((c, e) ∷ cs) st = Fits c e st × AllFit cs (answer c e st).1

  get_payment-Agrees :
      (id : String) (actor : Actor) (w : World (Store S))
      → IsCalm w
      → let (r, w') = get_payment S id actor w in
        Agrees r (view S w'.db.tables) (Calls.get_payment id actor (view S w.db.tables))
  unfolding get_payment may_see select_payment_by_id pool_exec ◌>>=◌
  get_payment-Agrees id actor w calm =
      let c0 = calm 0 in
      elim (Option-cases (S.payments.find id w.db.tables.payments)) [
        | inl missing ↦
            (ground arith, record { payments = λ k. ground arith; ledgers = λ m c. ground arith })
        | inr (d, e) ↦
            (ground arith, record { payments = λ k. ground arith; ledgers = λ m c. ground arith })
      ]

  -- While the server answers, and no fee that is set is 0, SettleNetworkFee does what the contract
  -- says: it records the fee on a payment that has none, returns a payment that has one as it is, and
  -- changes nothing else; a missing payment is ErrNotFound.
  settle_network_fee-Agrees :
      (id : String) (fee : ℤ) (w : World (Store S))
      → IsCalm w
      → IsSound S w.db
      → let (r, w') = settle_network_fee S id fee w in
        Agrees r (view S w'.db.tables) (network_fee fee id (view S w.db.tables))
  unfolding settle_network_fee ◌>>=◌
  settle_network_fee-Agrees id fee w calm sound =
      let set = set_network_fee fee (w.readings 0) in
      let s = w.db.tables.payments in
      let first = calm 0 in
      let second = calm 1 in
      let found = S.payments.update_lem id has_no_network_fee set s in
      elim (Option-cases (S.payments.find id s)) [
        | inl missing ↦
            (ground arith, record { payments = λ k. ground arith; ledgers = λ m c. ground arith })
        | inr (r, e) ↦ elim (Option-cases r.network_fee_minor) [
          | inl free ↦ (
            ground (
              arith,
              eq_iff r.id id,
              S.payments.find-key id r s e,
              S.payments.find-write (set r) id s,
            ),
            record {
              payments = λ k. ground (arith, payment_view-write S (set r) k s);
              ledgers = λ m c. ground arith;
            },
          )
          | inr (x, taken) ↦
              let not_zero = sound.fee_set id r x e taken in
              (ground arith, record { payments = λ k. ground arith; ledgers = λ m c. ground arith })
        ]
      ]

  answer-Keeps :
      (c : Call) (e : Moment) (st : Store S)
      → IsPlain c
      → IsSound S st
      → Fits c e st
      → Keeps (λ st. view S st.tables) (answer c e st) (promised c e (view S st.tables))
  unfolding answer
  answer-Keeps (create input key) e st plain sound free =
      Agrees-Keeps (λ st. view S st.tables) (create_payment S input key) (world_at e st) _
        (create_payment-Agrees_postgres S input key (world_at e st) (λ n. refl) sound)
  answer-Keeps (get id actor) e st plain sound free =
      Agrees-Keeps (λ st. view S st.tables) (get_payment S id actor) (world_at e st) _
        (get_payment-Agrees id actor (world_at e st) λ n. refl)
  answer-Keeps (capture_of id) e st plain sound free =
      Agrees-Keeps (λ st. view S st.tables) (capture_payment S id) (world_at e st) _
        (capture_payment-Agrees_postgres S id (world_at e st) λ n. refl)
  answer-Keeps (settle_of id) e st plain sound free =
      Agrees-Keeps (λ st. view S st.tables) (settle_payment S id) (world_at e st) _
        (settle_payment-Agrees_postgres S id (world_at e st) (λ n. refl)
          (record { merchant_exists = sound.merchant_of }))
  answer-Keeps (network_fee_of id fee) e st plain sound free =
      Agrees-Keeps (λ st. view S st.tables) (settle_network_fee S id fee) (world_at e st) _
        (settle_network_fee-Agrees id fee (world_at e st) (λ n. refl) sound)
  answer-Keeps (refund_of id amount) e st plain sound free =
      AgreesRefund-Keeps (λ st. view S st.tables) (refund_payment S id amount) (world_at e st) _
        (refund_payment-AgreesRefund_postgres S id (world_at e st) (λ n. refl) amount free.0 free.1)

  positive-not_zero : (fee : ℤ) → leb_ℤ fee (pos 0) ≡ false → eqb_ℤ fee (pos 0) ≡ false
  positive-not_zero fee h = ground arith

  answer-IsSound :
      (c : Call) (e : Moment) (st : Store S)
      → IsPlain c
      → IsSound S st
      → IsSound S (answer c e st).1
  unfolding answer
  answer-IsSound (create input key) e st plain sound =
      ((create_payment-Triple S input key).holds (world_at e st) sound tt).0
  answer-IsSound (get id actor) e st plain sound =
      ((get_payment-Triple S id actor).holds (world_at e st) sound tt).0
  answer-IsSound (capture_of id) e st plain sound =
      ((capture_payment-Triple S id).holds (world_at e st) sound tt).0
  answer-IsSound (settle_of id) e st plain sound =
      ((settle_payment-Triple S id).holds (world_at e st) sound tt).0
  answer-IsSound (network_fee_of id fee) e st plain sound =
      ((settle_network_fee-Triple S id fee (positive-not_zero fee plain)).holds (world_at e st)
        sound tt).0
  answer-IsSound (refund_of id amount) e st plain sound =
      ((refund_payment-Triple S id amount).holds (world_at e st) sound tt).0

  abbrev Ready : List (Call × Moment) → Store S → Type 0
  Ready cs st = AllPlain cs × IsSound S st × AllFit cs st

  call-Keeps :
      (c : Call) (e : Moment) (cs : List (Call × Moment)) (st : Store S)
      → Ready ((c, e) ∷ cs) st
      → Keeps (λ st. view S st.tables) (answer c e st) (promised c e (view S st.tables))
        × Ready cs (answer c e st).1
  unfolding AllFit
  call-Keeps c e cs st (plain, sound, free) = (
    answer-Keeps c e st plain.0 sound free.0,
    (plain.1, answer-IsSound c e st plain.0 sound, free.1),
  )

  -- Whatever calls are made of CreatePayment, GetPayment, CapturePayment, SettlePayment,
  -- SettleNetworkFee and RefundPayment, in any order, each answered, with a network fee that is
  -- positive and a refund whose id is free and whose amount adds up to an int64 with what its payment
  -- has refunded so far, from tables that are linked as they should be: every answer of the PostgreSQL
  -- store is the one that the contract promises, and the payments and the ledgers at the end are those
  -- that the contract leads to, payments compared but for the times of their creation and their last
  -- update.
  pub run-Keeps_postgres :
      (cs : List (Call × Moment)) (st : Store S)
      → AllPlain cs
      → IsSound S st
      → AllFit cs st
      → KeepsUndated
          (λ st. view S st.tables)
          (run answer cs st)
          (run promised cs (view S st.tables))
  run-Keeps_postgres cs st plain sound free =
      run-KeepsUndated answer (λ st. view S st.tables) Ready call-Keeps cs st (plain, sound, free)
