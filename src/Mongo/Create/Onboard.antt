-- ===== src/Mongo/Create/Onboard.antt =====
-- The onboarding of CreatePayment, with a server that answers.
use Prim.Native.String.{◌++◌}
use gripe.Common.{
  Bool, String, ◌≡◌, refl, true, false, Option-cases, inl, inr, ◌∙◌, none, some, [], if◌then◌else◌,
  suc, arith, eq_iff,
}
use gripe.Domain.{Time, Currency}
use gripe.Exec.{World, Action, Result, ok, err, pure, exec, modify, ◌>>◌, continue, IsCalm, ◌>>=◌}
use gripe.Mongo.{Server, Store, MerchantDoc, contains}
use gripe.Mongo.View.{view, merchant_view}
use gripe.Mongo.Create.{upsert_merchant, upsert_customer, mark_seen, onboard_actors}

module _ (S : Server) where
  -- A merchant that is onboarded is owed nothing, and one that is known keeps its balances.
  merchant_view-onboard :
      (id m : String) (t : Time) (c : Currency) (s : S.merchants.State)
      → merchant_view c (
          S.merchants.find m (
            S.merchants.upsert
              (record { id = id; created_at = some t; balances = []; updated_at = none })
              (λ d. d)
              s))
        ≡ merchant_view c (S.merchants.find m s)
  merchant_view-onboard id m t c s =
      let new : MerchantDoc = record {
        id = id;
        created_at = some t;
        balances = [];
        updated_at = none;
      } in
      let put = S.merchants.upsert_lem new (λ d. d) s in
      elim (Option-cases (S.merchants.find id s)) [
        | inl unknown ↦ ground (arith, eq_iff id m, S.merchants.find-write new m s)
        | inr (d, known) ↦ ground (
          arith,
          eq_iff d.id m,
          eq_iff d.id id,
          S.merchants.find-key id d s known,
          S.merchants.find-write d m s,
        )
      ]

  -- A step of the onboarding, which a view does not show.
  pub record Onboards (w : World (Store S)) (r : Result Unit) (w' : World (Store S)) : Type 0 where
    pub returns : r ≡ ok tt
    pub payments : w'.db.payments ≡ w.db.payments
    pub ledgers : (m : String) (c : Currency) → (view S w'.db).ledger m c ≡ (view S w.db).ledger m c
    pub calm : IsCalm w'
    pub readings : w'.readings ≡ w.readings
    pub random : w'.random ≡ w.random

  merchant-Onboards :
      (seen : Bool) (id key : String) (t : Time) (w : World (Store S))
      → IsCalm w
      → let (r, w') =
          (if seen then pure tt else (exec (upsert_merchant S id t) >> modify (mark_seen S key)))
            w in
        Onboards w r w'
  unfolding ◌>>=◌
  merchant-Onboards true id key t w calm = record {
    returns = refl;
    payments = refl;
    ledgers = λ m c. refl;
    calm = calm;
    readings = refl;
    random = refl;
  }
  merchant-Onboards false id key t w calm = rw (calm 0) (record {
    returns = refl;
    payments = refl;
    ledgers = λ m c. merchant_view-onboard id m t c w.db.merchants;
    calm = λ n. calm (suc n);
    readings = refl;
    random = refl;
  })

  customer-Onboards :
      (seen : Bool) (id key : String) (t : Time) (w : World (Store S))
      → IsCalm w
      → let (r, w') =
          (if seen then pure tt else (exec (upsert_customer S id t) >> modify (mark_seen S key)))
            w in
        Onboards w r w'
  unfolding ◌>>=◌
  customer-Onboards true id key t w calm = record {
    returns = refl;
    payments = refl;
    ledgers = λ m c. refl;
    calm = calm;
    readings = refl;
    random = refl;
  }
  customer-Onboards false id key t w calm = rw (calm 0) (record {
    returns = refl;
    payments = refl;
    ledgers = λ m c. refl;
    calm = λ n. calm (suc n);
    readings = refl;
    random = refl;
  })

  continue-Onboards :
      (r : Result Unit) (w w' : World (Store S)) (f : Unit → Action (Store S) Unit)
      → Onboards w r w'
      → (IsCalm w' → let (r2, w2) = f tt w' in Onboards w' r2 w2)
      → let (r2, w2) = continue r f w' in Onboards w r2 w2
  continue-Onboards (err e) w w' f h k = absurd (let no = h.returns in ground arith)
  continue-Onboards (ok u) w w' f h k =
      let k = k h.calm in
      record {
        returns = k.returns;
        payments = k.payments ∙ h.payments;
        ledgers = λ m c. k.ledgers m c ∙ h.ledgers m c;
        calm = k.calm;
        readings = k.readings ∙ h.readings;
        random = k.random ∙ h.random;
      }

  pub onboard_actors-Onboards :
      (m c : String) (w : World (Store S))
      → IsCalm w
      → let (r, w') = onboard_actors S m c w in
        Onboards (record w { readings = λ n. w.readings (suc n) }) r w'
  unfolding onboard_actors ◌>>=◌
  onboard_actors-Onboards m c w calm =
      let w1 : World (Store S) = record w { readings = λ n. w.readings (suc n) } in
      let seen = contains ("m:" ++ m) w.db.seen in
      let (r2, w2) =
        (if seen
            then pure tt
            else (exec (upsert_merchant S m (w.readings 0)) >> modify (mark_seen S ("m:" ++ m))))
          w1 in
      continue-Onboards r2 w1 w2
        (λ _ w2.
          (if contains ("c:" ++ c) w2.db.seen
              then pure tt
              else (exec (upsert_customer S c (w.readings 0)) >> modify (mark_seen S ("c:" ++ c))))
            w2)
        (merchant-Onboards seen m ("m:" ++ m) (w.readings 0) w1 calm)
        λ calm2.
          customer-Onboards (contains ("c:" ++ c) w2.db.seen) c ("c:" ++ c) (w.readings 0) w2 calm2
