-- ===== src/Postgres/Idempotency.antt =====
-- store/postgres/store.go: PutIdempotencyRecord and GetIdempotencyRecord, on the table
-- `idempotency_keys`.
use gripe.Common.{ℕ, String, ◌≡◌, false, none, some, ◌==◌, eq_refl, arith, if◌then◌else◌}
use gripe.Domain.{Time, cut, microsecond}
use gripe.Storage.{Collection}
use gripe.Exec.{World, Action, Command, ok, IsCalm, exec, pure, raise, if_found, not_found, ◌>>=◌}
use gripe.Api.Idempotency.{IdempotencyRecord, cut_record}

-- A row of idempotency_keys.
pub record IdemRow : Type 0 where
  pub key : String
  pub actor_role : String
  pub actor_id : String
  pub body_hash : String
  pub status_code : ℕ
  pub response : String
  pub created_at : Time
  pub expires_at : Time

-- A timestamptz keeps microseconds.
abbrev to_row : IdempotencyRecord → IdemRow
to_row r = record {
  key = r.key;
  actor_role = r.actor_role;
  actor_id = r.actor_id;
  body_hash = r.body_hash;
  status_code = r.status_code;
  response = r.response;
  created_at = cut microsecond r.created_at;
  expires_at = cut microsecond r.expires_at;
}

abbrev of_row : IdemRow → IdempotencyRecord
of_row d = record {
  key = d.key;
  actor_role = d.actor_role;
  actor_id = d.actor_id;
  body_hash = d.body_hash;
  status_code = d.status_code;
  response = d.response;
  created_at = d.created_at;
  expires_at = d.expires_at;
}

-- No error, or ErrIdempotencyExists.
pub data Put : Type 0 where
  stored exists : Put

module _ (Keys : Collection ◌==◌ (λ (d : IdemRow). d.key)) where
  -- INSERT; isUniqueViolation tells a taken key apart from any other error. An empty response is the
  -- nil slice of a buffer that nothing was written to: a NULL, which the column refuses.
  abbrev insert_row : IdemRow → Command Keys.State Put
  insert_row d s =
      if d.response == ""
      then none
      else (elim (Keys.insert d s) [ none ↦ some (exists, s) | some s' ↦ some (stored, s') ])

  unfoldable pub put_record : IdempotencyRecord → Action Keys.State Put
  put_record r = exec (insert_row (to_row r))

  unfoldable pub get_record : String → Action Keys.State IdempotencyRecord
  get_record key = do
    found ← exec (λ s. some (Keys.find key s, s))
    if_found found (raise not_found) λ d. pure (of_row d)

  -- While the server answers: a record whose response is not empty, put under a free key, is stored, and
  -- from then on, as long as the keys are as that put left them, getting the key gives back the record,
  -- with its two times cut to whole microseconds and all else as it was, getting another key gives what
  -- it gave before, and putting any record whose response is not empty under the key is
  -- ErrIdempotencyExists and changes nothing.
  pub get_record-put_record_postgres :
      (r : IdempotencyRecord) (w v : World Keys.State)
      → IsCalm w
      → IsCalm v
      → (r.response == "") ≡ false
      → Keys.find r.key w.db ≡ none
      → v.db ≡ (put_record r w).1.db
      → ((put_record r w).0 ≡ ok stored)
        × ((get_record r.key v).0 ≡ ok (cut_record microsecond r))
        × ((k : String) → (r.key == k) ≡ false → (get_record k v).0 ≡ (get_record k w).0)
        × ((r' : IdempotencyRecord)
            → r'.key ≡ r.key
            → (r'.response == "") ≡ false
            → ((put_record r' v).0 ≡ ok exists) × ((put_record r' v).1.db ≡ v.db))
  unfolding put_record get_record ◌>>=◌ exec
  get_record-put_record_postgres r w v calm calm' full free kept =
      let c = calm 0 in
      let c' = calm' 0 in
      let put = Keys.insert_lem (to_row r) w.db in
      let self = eq_refl r.key in
      (
        ground arith,
        ground (arith, Keys.find-write (to_row r) r.key w.db),
        λ k other. ground (arith, Keys.find-write (to_row r) k w.db),
        λ r' same full'.
            let again = Keys.insert_lem (to_row r') v.db in
            (
              ground (arith, Keys.find-write (to_row r) r.key w.db),
              ground (arith, Keys.find-write (to_row r) r.key w.db),
            ),
      )
