-- ===== src/Api/Idempotency/Replay.antt =====
-- internal/api/idempotency.go: what a write that is sent again gets, and when its handler runs.
use native.Mathlib.Nat.{div-add-mod', mod-lt}
use gripe.Common.{
  ℕ, suc, ◌+◌, ◌≤◌, ◌<◌, Option, String, ◌≡◌, ◌∙◌, refl, true, false, none, some, ◌==◌, eq_refl,
  trim_space, arith,
}
use gripe.Domain.{Time, cut}
use gripe.Storage.{Collection}
use gripe.Exec.{after_command, World, Result, ok, err, Action, answered, ◌>>=◌}
use gripe.Api.{Request, Response}
use gripe.Api.Idempotency.{
  IdempotencyRecord, cut_record, Site, inner, is_success, replay, serve_keyed, has_expired,
  new_record, serve_fresh, idempotency_middleware,
}

-- A write that the middleware lets through: a POST with a key and a body.
pub record IsWrite (request : Request) (key body : String) : Type 0 where
  pub is_post : (request.method == "POST") ≡ true
  pub has_key : trim_space request.idempotency_key ≡ key
  pub not_blank : (key == "") ≡ false
  pub has_body : request.body ≡ some body

-- The world after one reading of the clock.
abbrev pub after_reading : {D : Type 0} → World D → World D
after_reading w = record w { readings = λ n. w.readings (suc n) }

-- What is found of a record in a database that keeps times in whole units.
abbrev pub cut_found : ℕ → Option IdempotencyRecord → Option IdempotencyRecord
cut_found unit none = none
cut_found unit (some r) = some (cut_record unit r)

-- A time is less than a unit past its cut.
cut-near : (unit : ℕ) (t : Time) → 0 < unit → suc t ≤ cut unit t + unit
cut-near unit t h = omega (arith, div-add-mod' t unit, mod-lt t h)

module _ {H : Type 0} (Keys : Collection ◌==◌ (λ (r : IdempotencyRecord). r.key))
    (error_json sha256_hex : String → String) (ttl : ℕ) where
  serve_fresh-records :
      (next : Request → Action H Response) (key hash : String) (request : Request)
      (response : Response) (w : World (Site H Keys.State)) (w1 : World H)
      → next request (inner w) ≡ (ok response, w1)
      → is_success response.status ≡ true
      → w1.outcomes 0 ≡ answered
      → Keys.find key w.db.records ≡ none
      → (serve_fresh Keys error_json sha256_hex ttl next key hash request w).1.db.records
        ≡ Keys.write (new_record key request.actor hash response (w1.readings 0) ttl) w.db.records
  unfolding serve_fresh ◌>>=◌
  serve_fresh-records next key hash request response w w1 ran success put fresh =
      let taken =
        Keys.insert_lem (new_record key request.actor hash response (w1.readings 0) ttl)
          w.db.records in
      ground arith

  keyed :
      (next : Request → Action H Response) (request : Request) (key body : String)
      (v : World (Site H Keys.State))
      → IsWrite request key body
      → idempotency_middleware Keys error_json sha256_hex ttl next request v
        ≡ serve_keyed Keys error_json sha256_hex ttl next key (sha256_hex body) request v
  unfolding idempotency_middleware ◌>>=◌
  keyed next request key body v write =
      simp (write.is_post, write.has_key, write.not_blank, write.has_body)

  serve_keyed-replay :
      (next : Request → Action H Response) (request : Request) (key hash : String)
      (r : IdempotencyRecord) (v : World (Site H Keys.State))
      → v.outcomes 0 ≡ answered
      → Keys.find key v.db.records ≡ some r
      → (r.body_hash == hash) ≡ true
      → has_expired (v.readings 0) r ≡ false
      → let (result, v') = serve_keyed Keys error_json sha256_hex ttl next key hash request v in
        (result ≡ ok (replay r)) × (v'.db ≡ v.db)
  unfolding serve_keyed ◌>>=◌
  serve_keyed-replay next request key hash r v answer found same live = ground arith

  serve_keyed-fresh :
      (next : Request → Action H Response) (request : Request) (key hash : String)
      (response : Response) (w : World (Site H Keys.State)) (w1 : World H)
      → w.outcomes 0 ≡ answered
      → Keys.find key w.db.records ≡ none
      → next request (inner (after_command w)) ≡ (ok response, w1)
      → is_success response.status ≡ true
      → w1.outcomes 0 ≡ answered
      → (serve_keyed Keys error_json sha256_hex ttl next key hash request w).1.db.records
        ≡ Keys.write (new_record key request.actor hash response (w1.readings 0) ttl) w.db.records
  unfolding serve_keyed serve_fresh ◌>>=◌
  serve_keyed-fresh next request key hash response w w1 answer fresh ran success put =
      let taken =
        Keys.insert_lem (new_record key request.actor hash response (w1.readings 0) ttl)
          w.db.records in
      ground arith

  -- After a first write under a fresh key whose handler answers with a 2xx status, where the two
  -- commands on the records are answered: wherever a later lookup of the key is answered and finds
  -- the record that the first write left, with its times cut to multiples of a unit, as the databases
  -- cut them (a unit of 1 cuts nothing), and the clock is still at least a unit less 1 before the
  -- expiry, or at it for a unit of 1, any write with the same key and the same body, whatever its
  -- path and its actor are, gets the status and the body of the first one as a replay, and neither
  -- the handlers' state nor the records change: the handler does not run again. The records of other
  -- keys may have changed in between.
  pub middleware-replays :
      (next : Request → Action H Response) (request other : Request) (key body : String)
      (response : Response) (w v : World (Site H Keys.State)) (w1 : World H) (unit : ℕ)
      → IsWrite request key body
      → IsWrite other key body
      → w.outcomes 0 ≡ answered
      → Keys.find key w.db.records ≡ none
      → next request (inner (after_command w)) ≡ (ok response, w1)
      → is_success response.status ≡ true
      → w1.outcomes 0 ≡ answered
      → Keys.find key v.db.records
        ≡ cut_found unit (
            Keys.find key
              (idempotency_middleware Keys error_json sha256_hex ttl next request w).1.db.records)
      → v.outcomes 0 ≡ answered
      → 0 < unit
      → v.readings 0 + unit ≤ suc (w1.readings 0 + ttl)
      → let (result, v') = idempotency_middleware Keys error_json sha256_hex ttl next other v in
        (result ≡ ok (record response { replayed = true })) × (v'.db ≡ v.db)
  middleware-replays next request other key body response w v w1 unit first again answer fresh ran
        success put kept answer' some_unit in_time =
      let r = new_record key request.actor (sha256_hex body) response (w1.readings 0) ttl in
      let stored : (idempotency_middleware Keys error_json sha256_hex ttl next request
            w).1.db.records
          ≡ Keys.write r w.db.records =
        rw (keyed next request key body w first) (
          serve_keyed-fresh next request key (sha256_hex body) response w w1 answer fresh ran
            success put) in
      let found : Keys.find key v.db.records ≡ some (cut_record unit r) =
        kept ∙ rw (stored, Keys.find-write r key w.db.records, eq_refl key) refl in
      let late = cut-near unit (w1.readings 0 + ttl) some_unit in
      rw (keyed next other key body v again) (
        serve_keyed-replay next other key (sha256_hex body) (cut_record unit r) v answer' found
          (eq_refl (sha256_hex body)) (ground arith))

  serve_fresh-taken :
      (next : Request → Action H Response) (request : Request) (key hash : String)
      (r : IdempotencyRecord) (handled : Result Response) (w : World (Site H Keys.State))
      (w1 : World H)
      → next request (inner w) ≡ (handled, w1)
      → Keys.find key w.db.records ≡ some r
      → let (result, w') = serve_fresh Keys error_json sha256_hex ttl next key hash request w in
        (result ≡ handled) × (w'.db.app ≡ w1.db) × (w'.db.records ≡ w.db.records)
  unfolding serve_fresh ◌>>=◌
  serve_fresh-taken next request key hash r (err e) w w1 ran found = ground arith
  serve_fresh-taken next request key hash r (ok response) w w1 ran found =
      let taken =
        Keys.insert_lem (new_record key request.actor hash response (w1.readings 0) ttl)
          w.db.records in
      ground arith

  serve_keyed-expired :
      (next : Request → Action H Response) (request : Request) (key hash : String)
      (r : IdempotencyRecord) (w : World (Site H Keys.State))
      → w.outcomes 0 ≡ answered
      → Keys.find key w.db.records ≡ some r
      → has_expired (w.readings 0) r ≡ true
      → serve_keyed Keys error_json sha256_hex ttl next key hash request w
        ≡ serve_fresh Keys error_json sha256_hex ttl next key hash request
            (after_reading (after_command w))
  unfolding serve_keyed ◌>>=◌
  serve_keyed-expired next request key hash r w answer found expired =
      simp (answer, found) (ground arith)

  -- Where the lookup of the key is answered and the clock has passed the expiry of the record under
  -- it, the handler runs, and its response is the result; the record of the expired key is not
  -- replaced, and so stays expired, whatever becomes of the handler's commands and of the insert of
  -- a new record.
  pub expired_key_runs_again :
      (next : Request → Action H Response) (request : Request) (key body : String)
      (r : IdempotencyRecord) (w : World (Site H Keys.State))
      → IsWrite request key body
      → w.outcomes 0 ≡ answered
      → Keys.find key w.db.records ≡ some r
      → has_expired (w.readings 0) r ≡ true
      → let (result, w') = idempotency_middleware Keys error_json sha256_hex ttl next request w in
        let (handled, inside) = next request (inner (after_reading (after_command w))) in
        (result ≡ handled) × (w'.db.app ≡ inside.db) × (w'.db.records ≡ w.db.records)
  expired_key_runs_again next request key body r w write answer found expired =
      rw
        (
          keyed next request key body w write,
          serve_keyed-expired next request key (sha256_hex body) r w answer found expired,
        )
        (serve_fresh-taken next request key (sha256_hex body) r _ (after_reading (after_command w))
          _ refl found)
