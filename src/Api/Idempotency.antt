-- ===== src/Api/Idempotency.antt =====
-- internal/api/idempotency.go: the middleware that answers a repeated write from its record. The
-- records are in a collection with the key as its primary key, as PutIdempotencyRecord and
-- GetIdempotencyRecord of both stores use it.
pub mod Replay
pub mod Tests
use gripe.Common.{
  ℕ, ◌+◌, String, Bool, true, false, Option, none, some, ◌==◌, not, ◌&&◌, ltb, leb, trim_space,
  if◌then◌else◌,
}
use gripe.Domain.{Time, cut, is_zero, Actor, ActorRole, admin, merchant, customer}
use gripe.Storage.{Collection}
use gripe.Exec.{
  World, Result, attempt, ok, err, StoreError, Action, Command, exec, now, pure, raise, if_found,
  not_found, ◌>>=◌, ◌>>◌,
}
use gripe.Api.{Request, Response}

pub record IdempotencyRecord : Type 0 where
  pub key : String
  pub actor_role : String
  pub actor_id : String
  pub body_hash : String
  pub status_code : ℕ
  pub response : String
  pub created_at : Time
  pub expires_at : Time

-- The record as a database gives it back that keeps times in whole units.
abbrev pub cut_record : ℕ → IdempotencyRecord → IdempotencyRecord
cut_record unit r = record r {
  created_at = cut unit r.created_at;
  expires_at = cut unit r.expires_at;
}

-- What the handlers keep, beside the records.
pub record Site (H R : Type 0) : Type 0 where
  pub app : H
  pub records : R

-- A handler runs on its own part of the state.
abbrev pub inner : {H R : Type 0} → World (Site H R) → World H
inner w = record { db = w.db.app; outcomes = w.outcomes; readings = w.readings; random = w.random }

abbrev pub outer : {H R : Type 0} → R → World H → World (Site H R)
outer s w = record {
  db = record { app = w.db; records = s };
  outcomes = w.outcomes;
  readings = w.readings;
  random = w.random;
}

unfoldable pub run_inner : {H R A : Type 0} → Action H A → Action (Site H R) A
run_inner m w = let (r, w') = m (inner w) in (r, outer w.db.records w')

abbrev pub role_text : ActorRole → String
role_text admin = "admin"
role_text merchant = "merchant"
role_text customer = "customer"
role_text (ActorRole.other s) = s

-- A missing actor is Go's zero value.
abbrev pub actor_or_zero : Option Actor → Actor
actor_or_zero none = record { role = ActorRole.other ""; id = "" }
actor_or_zero (some a) = a

abbrev pub is_success : ℕ → Bool
is_success status = leb 200 status && ltb status 300

-- `time.Now().After(rec.ExpiresAt)`, where the record expires at all.
abbrev pub has_expired : Time → IdempotencyRecord → Bool
has_expired t r = not (is_zero r.expires_at) && ltb r.expires_at t

abbrev pub replay : IdempotencyRecord → Response
replay r = record { status = r.status_code; body = r.response; replayed = true }

abbrev pub new_record : String → Option Actor → String → Response → Time → ℕ → IdempotencyRecord
new_record key actor hash response t ttl = record {
  key = key;
  actor_role = role_text (actor_or_zero actor).role;
  actor_id = (actor_or_zero actor).id;
  body_hash = hash;
  status_code = response.status;
  response = response.body;
  created_at = t;
  expires_at = t + ttl;
}

-- The error's JSON body and the SHA-256 of a body come from Go's library.
module _ {H : Type 0} (Keys : Collection ◌==◌ (λ (r : IdempotencyRecord). r.key))
    (error_json sha256_hex : String → String) (ttl : ℕ) where
  abbrev pub refuse : ℕ → String → Action (Site H Keys.State) Response
  refuse status message =
      pure (record { status = status; body = error_json message; replayed = false })

  -- A plain insert; `false` is ErrIdempotencyExists.
  abbrev pub insert_record : IdempotencyRecord → Command (Site H Keys.State) Bool
  insert_record r st = elim (Keys.insert r st.records) [
    | none ↦ some (false, st)
    | some s ↦ some (true, record st { records = s })
  ]

  unfoldable pub put_idempotency_record : IdempotencyRecord → Action (Site H Keys.State) Bool
  put_idempotency_record r = exec (insert_record r)

  unfoldable pub get_idempotency_record : String → Action (Site H Keys.State) IdempotencyRecord
  get_idempotency_record key = do
    found ← exec (λ st. some (Keys.find key st.records, st))
    if_found found (raise not_found) λ r. pure r

  -- From the call of the handler on; an error of the insert is dropped.
  unfoldable pub serve_fresh :
      (Request → Action H Response)
      → String
      → String
      → Request
      → Action (Site H Keys.State) Response
  unfolding run_inner attempt put_idempotency_record
  serve_fresh next key hash request = do
    response ← run_inner (next request)
    if is_success response.status
        then (do
          t ← now
          put ← attempt (put_idempotency_record (new_record key request.actor hash response t ttl))
          pure response)
        else pure response

  -- The live record: a conflict, or its response again.
  abbrev pub serve_recorded : String → IdempotencyRecord → Action (Site H Keys.State) Response
  serve_recorded hash existing =
      if existing.body_hash == hash
      then pure (replay existing)
      else refuse 409 "Idempotency-Key was previously used with a different request body"

  -- The switch on the lookup. The clock is read only where the record expires.
  abbrev pub serve_existing :
      (Request → Action H Response)
      → String
      → String
      → Request
      → Result IdempotencyRecord
      → Action (Site H Keys.State) Response
  serve_existing next key hash request (ok existing) =
      if is_zero existing.expires_at then serve_recorded hash existing else (do
        t ← now
        if has_expired t existing
            then serve_fresh next key hash request
            else serve_recorded hash existing)
  serve_existing next key hash request (err not_found) = serve_fresh next key hash request
  serve_existing next key hash request (err e) = refuse 500 "idempotency lookup"

  unfoldable pub serve_keyed :
      (Request → Action H Response)
      → String
      → String
      → Request
      → Action (Site H Keys.State) Response
  unfolding get_idempotency_record attempt serve_fresh
  serve_keyed next key hash request = do
    found ← attempt (get_idempotency_record key)
    serve_existing next key hash request found

  unfoldable pub idempotency_middleware :
      (Request → Action H Response) → Request → Action (Site H Keys.State) Response
  unfolding run_inner serve_keyed
  idempotency_middleware next request =
      if request.method == "POST"
      then (let key = trim_space request.idempotency_key in
          if key == ""
          then refuse 400 "Idempotency-Key header is required on writes"
          else if_found request.body (refuse 400 "read body")
              λ body. serve_keyed next key (sha256_hex body) request)
      else run_inner (next request)
