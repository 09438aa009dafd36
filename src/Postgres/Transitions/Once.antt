-- ===== src/Postgres/Transitions/Once.antt =====
-- store/postgres/store.go: SettleNetworkFee, called again.
use gripe.Common.{String, ◌≡◌, refl, true, none, some, arith}
use gripe.Int.{ℤ}
use gripe.Exec.{World, ok, IsCalm, ◌>>=◌}
use gripe.Postgres.{Server, Store, PaymentRow, to_payment}
use gripe.Postgres.Transitions.{has_no_network_fee, set_network_fee, settle_network_fee}

module _ (S : Server) (id : String) (w : World (Store S)) (calm : IsCalm w) where
  first_network_fee :
      (r : PaymentRow) (fee : ℤ)
      → S.payments.find id w.db.tables.payments ≡ some r
      → has_no_network_fee r ≡ true
      → let (result, w') = settle_network_fee S id fee w in
        let r' = set_network_fee fee (w.readings 0) r in
        (result ≡ ok (to_payment r')) × (S.payments.find id w'.db.tables.payments ≡ some r')
  unfolding settle_network_fee ◌>>=◌
  first_network_fee r fee e unset =
      let first = calm 0 in
      let second = calm 1 in
      ground (
        arith,
        S.payments.update_lem id has_no_network_fee (set_network_fee fee (w.readings 0))
            w.db.tables.payments,
        S.payments.find-write (set_network_fee fee (w.readings 0) r) id w.db.tables.payments,
        S.payments.find-key id r w.db.tables.payments e,
      )

  later_network_fee :
      (r : PaymentRow) (old fee : ℤ)
      → S.payments.find id w.db.tables.payments ≡ some r
      → r.network_fee_minor ≡ some old
      → let (result, w') = settle_network_fee S id fee w in
        (result ≡ ok (to_payment r)) × (w'.db ≡ w.db)
  unfolding settle_network_fee ◌>>=◌
  later_network_fee r old fee e set =
      let first = calm 0 in
      let second = calm 1 in
      ground (
        arith,
        S.payments.update_lem id has_no_network_fee (set_network_fee fee (w.readings 0))
            w.db.tables.payments,
      )

module _ (S : Server) (id : String) (w v : World (Store S)) (calm : IsCalm w)
    (calm' : IsCalm v) where
  -- While the server answers, the first fee that SettleNetworkFee is called with for a payment
  -- without one is recorded, whatever its sign is, 0 included; a later call, while the row is as the
  -- first one left it, returns the payment with the first fee and changes nothing, whatever fee it
  -- is called with.
  pub settle_network_fee-once :
      (r : PaymentRow) (fee later : ℤ)
      → S.payments.find id w.db.tables.payments ≡ some r
      → r.network_fee_minor ≡ none
      → S.payments.find id v.db.tables.payments ≡ some (set_network_fee fee (w.readings 0) r)
      → let (result, w') = settle_network_fee S id fee w in
        let (result', v') = settle_network_fee S id later v in
        let r' = set_network_fee fee (w.readings 0) r in
        (result ≡ ok (to_payment r'))
        × (S.payments.find id w'.db.tables.payments ≡ some r')
        × (result' ≡ ok (to_payment r'))
        × (v'.db ≡ v.db)
  settle_network_fee-once r fee later e unset kept =
      let (answer, stored) = first_network_fee S id w calm r fee e (ground arith) in
      let r' = set_network_fee fee (w.readings 0) r in
      let (again, same) = later_network_fee S id v calm' r' fee later kept refl in
      (answer, stored, again, same)
