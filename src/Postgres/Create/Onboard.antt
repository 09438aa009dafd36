-- ===== src/Postgres/Create/Onboard.antt =====
-- The onboarding of CreatePayment inside its transaction, with a server that answers.
use Prim.Native.String.{◌++◌}
use mathlib.Core.Path.{subst}
use gripe.Common.{
  Bool, String, ◌≡◌, refl, ap, true, false, Option-cases, inl, inr, ◌∙◌, sym, if◌then◌else◌, suc,
  arith, ◌==◌, eq_refl, eq_iff,
}
use gripe.Storage.{upserted}
use gripe.Exec.{World, Action, Result, ok, err, pure, now, continue, IsCalm, ◌>>=◌}
use gripe.Postgres.{Server, Store, Tables, PartyRow, exists, tx_exec}
use gripe.Postgres.Create.{contains, upsert_merchant, upsert_customer, upsert_parties}
use gripe.Postgres.Sound.{IsSound}

module _ (S : Server) where
  upserted-key :
      (id : String) (new : PartyRow) (s : S.merchants.State)
      → (new.id == id) ≡ true
      → ((upserted new (λ r. r) (S.merchants.find id s)).id == id) ≡ true
  upserted-key id new s h = elim (Option-cases (S.merchants.find id s)) [
    | inl unknown ↦ ground arith
    | inr (d, known) ↦ ground (arith, S.merchants.find-key id d s known)
  ]

  upserted_customer-key :
      (id : String) (new : PartyRow) (s : S.customers.State)
      → (new.id == id) ≡ true
      → ((upserted new (λ r. r) (S.customers.find id s)).id == id) ≡ true
  upserted_customer-key id new s h = elim (Option-cases (S.customers.find id s)) [
    | inl unknown ↦ ground arith
    | inr (d, known) ↦ ground (arith, S.customers.find-key id d s known)
  ]

  -- A step of the onboarding inside the transaction: only actors are added.
  pub record Onboards (tx : Tables S) (w : World (Store S)) (r : Result (Unit × Tables S))
      (w' : World (Store S)) : Type 0 where
    pub tables : Tables S
    pub returns : r ≡ ok (tt, tables)
    pub payments : tables.payments ≡ tx.payments
    pub balances : tables.balances ≡ tx.balances
    pub merchants :
        (m : String)
        → exists (S.merchants.find m tx.merchants) ≡ true
        → exists (S.merchants.find m tables.merchants) ≡ true
    pub customers :
        (c : String)
        → exists (S.customers.find c tx.customers) ≡ true
        → exists (S.customers.find c tables.customers) ≡ true
    pub db : w'.db ≡ w.db
    pub calm : IsCalm w'

  merchant-Onboards :
      (seen : Bool) (id : String) (tx : Tables S) (w : World (Store S))
      → IsCalm w
      → (seen ≡ true → exists (S.merchants.find id tx.merchants) ≡ true)
      → let (r, w') =
          (if seen then pure (tt, tx) else (do t ← now; tx_exec S (upsert_merchant S id t) tx)) w in
        (o : Onboards tx w r w') × (exists (S.merchants.find id o.tables.merchants) ≡ true)
  unfolding ◌>>=◌ tx_exec
  merchant-Onboards true id tx w calm known = (
    record {
      tables = tx;
      returns = refl;
      payments = refl;
      balances = refl;
      merchants = λ m h. h;
      customers = λ m h. h;
      db = refl;
      calm = calm;
    },
    known refl,
  )
  merchant-Onboards false id tx w calm known =
      let new : PartyRow = record { id = id; created_at = w.readings 0 } in
      let s = S.merchants.upsert new (λ r. r) tx.merchants in
      let put = S.merchants.upsert_lem new (λ r. r) tx.merchants in
      let row = upserted new (λ r. r) (S.merchants.find id tx.merchants) in
      let same = eq_iff row.id id in
      let key = upserted-key id new tx.merchants (eq_refl id) in
      rw (calm 0) (
        record {
          tables = record tx { merchants = s };
          returns = refl;
          payments = refl;
          balances = refl;
          merchants = λ m h. ground (arith, S.merchants.find-write row m tx.merchants);
          customers = λ m h. h;
          db = refl;
          calm = λ n. calm (suc n);
        },
        ground (arith, S.merchants.find-write row id tx.merchants),
      )

  customer-Onboards :
      (seen : Bool) (id : String) (tx : Tables S) (w : World (Store S))
      → IsCalm w
      → (seen ≡ true → exists (S.customers.find id tx.customers) ≡ true)
      → let (r, w') =
          (if seen then pure (tt, tx) else (do t ← now; tx_exec S (upsert_customer S id t) tx)) w in
        (o : Onboards tx w r w') × (exists (S.customers.find id o.tables.customers) ≡ true)
  unfolding ◌>>=◌ tx_exec
  customer-Onboards true id tx w calm known = (
    record {
      tables = tx;
      returns = refl;
      payments = refl;
      balances = refl;
      merchants = λ m h. h;
      customers = λ m h. h;
      db = refl;
      calm = calm;
    },
    known refl,
  )
  customer-Onboards false id tx w calm known =
      let new : PartyRow = record { id = id; created_at = w.readings 0 } in
      let s = S.customers.upsert new (λ r. r) tx.customers in
      let put = S.customers.upsert_lem new (λ r. r) tx.customers in
      let row = upserted new (λ r. r) (S.customers.find id tx.customers) in
      let key = upserted_customer-key id new tx.customers (eq_refl id) in
      rw (calm 0) (
        record {
          tables = record tx { customers = s };
          returns = refl;
          payments = refl;
          balances = refl;
          merchants = λ m h. h;
          customers = λ m h. ground (arith, S.customers.find-write row m tx.customers);
          db = refl;
          calm = λ n. calm (suc n);
        },
        ground (arith, S.customers.find-write row id tx.customers),
      )

  -- The onboarding as a whole.
  pub record Parties (m c : String) (tx : Tables S) (w : World (Store S))
      (r : Result (Unit × Tables S)) (w' : World (Store S)) : Type 0 where
    pub onboards : Onboards tx w r w'
    pub merchant : exists (S.merchants.find m onboards.tables.merchants) ≡ true
    pub customer : exists (S.customers.find c onboards.tables.customers) ≡ true

  abbrev customer_step : String → Unit {0} × Tables S → Action (Store S) (Unit × Tables S)
  customer_step c first w =
      (if contains ("c:" ++ c) w.db.seen
          then pure first
          else (do t ← now; tx_exec S (upsert_customer S c t) first.1))
        w

  continue-Parties :
      (m c : String) (tx : Tables S) (w : World (Store S)) (r : Result (Unit × Tables S))
      (w1 : World (Store S))
      → (o : Onboards tx w r w1) → exists (S.merchants.find m o.tables.merchants) ≡ true
      → (contains ("c:" ++ c) w.db.seen ≡ true → exists (S.customers.find c tx.customers) ≡ true)
      → let (r2, w2) = continue r (customer_step c) w1 in Parties m c tx w r2 w2
  continue-Parties m c tx w (err e) w1 o there known = absurd (let no = o.returns in ground arith)
  continue-Parties m c tx w (ok (u, t1)) w1 o there known =
      let e = o.returns in
      let same : t1 ≡ o.tables = ground arith in
      let (o2, has) = customer-Onboards (contains ("c:" ++ c) w1.db.seen) c t1 w1 o.calm (λ seen.
        subst (λ (t : Tables S). exists (S.customers.find c t.customers) ≡ true) (sym same)
          (o.customers c
            (known (ap (λ (d : Store S). contains ("c:" ++ c) d.seen) (sym o.db) ∙ seen)))) in
      record {
        onboards = record {
          tables = o2.tables;
          returns = o2.returns;
          payments = o2.payments ∙ (ap (λ t. t.payments) same ∙ o.payments);
          balances = o2.balances ∙ (ap (λ t. t.balances) same ∙ o.balances);
          merchants = λ k h. o2.merchants k (
              subst (λ (t : Tables S). exists (S.merchants.find k t.merchants) ≡ true) (sym same)
                (o.merchants k h));
          customers = λ k h. o2.customers k (
              subst (λ (t : Tables S). exists (S.customers.find k t.customers) ≡ true) (sym same)
                (o.customers k h));
          db = o2.db ∙ o.db;
          calm = o2.calm;
        };
        merchant = o2.merchants m (
            subst (λ (t : Tables S). exists (S.merchants.find m t.merchants) ≡ true) (sym same)
              (there));
        customer = has;
      }

  pub upsert_parties-Parties :
      (m c : String) (w : World (Store S))
      → IsCalm w
      → IsSound S w.db
      → let (r, w') = upsert_parties S m c w.db.tables w in Parties m c w.db.tables w r w'
  unfolding upsert_parties ◌>>=◌
  upsert_parties-Parties m c w calm sound =
      let tx = w.db.tables in
      let seen = contains ("m:" ++ m) w.db.seen in
      let (r1, w1) =
        (if seen then pure (tt, tx) else (do t ← now; tx_exec S (upsert_merchant S m t) tx)) w in
      let (o, there) = merchant-Onboards seen m tx w calm (sound.seen_merchant m) in
      continue-Parties m c tx w r1 w1 o there (sound.seen_customer c)
