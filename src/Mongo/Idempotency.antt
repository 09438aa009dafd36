-- ===== src/Mongo/Idempotency.antt =====
-- store/mongo/store.go: PutIdempotencyRecord and GetIdempotencyRecord, on the collection of the keys.
use gripe.Common.{ℕ, String, ◌≡◌, false, none, some, ◌==◌, eq_refl, arith}
use gripe.Domain.{Time, cut, millisecond}
use gripe.Storage.{Collection}
use gripe.Exec.{World, Action, Command, ok, IsCalm, exec, pure, raise, if_found, not_found, ◌>>=◌}
use gripe.Api.Idempotency.{IdempotencyRecord, cut_record}

-- idemDoc
pub record IdemDoc : Type 0 where
  pub key : String
  pub actor_role : String
  pub actor_id : String
  pub body_hash : String
  pub status_code : ℕ
  pub response : String
  pub created_at : Time
  pub expires_at : Time

-- A BSON date keeps milliseconds.
abbrev to_doc : IdempotencyRecord → IdemDoc
to_doc r = record {
  key = r.key;
  actor_role = r.actor_role;
  actor_id = r.actor_id;
  body_hash = r.body_hash;
  status_code = r.status_code;
  response = r.response;
  created_at = cut millisecond r.created_at;
  expires_at = cut millisecond r.expires_at;
}

abbrev of_doc : IdemDoc → IdempotencyRecord
of_doc d = record {
  key = d.key;
  actor_role = d.actor_role;
  actor_id = d.actor_id;
  body_hash = d.body_hash;
  status_code = d.status_code;
  response = d.response;
  created_at = d.created_at;
  expires_at = d.expires_at;
}

-- No error, or ErrIdempotencyExists.
pub data Put : Type 0 where
  stored exists : Put

module _ (Keys : Collection ◌==◌ (λ (d : IdemDoc). d.key)) where
  -- InsertOne; a duplicate key is told apart from any other error.
  abbrev insert_doc : IdemDoc → Command Keys.State Put
  insert_doc d s = elim (Keys.insert d s) [ none ↦ some (exists, s) | some s' ↦ some (stored, s') ]

  unfoldable pub put_record : IdempotencyRecord → Action Keys.State Put
  put_record r = exec (insert_doc (to_doc r))

  unfoldable pub get_record : String → Action Keys.State IdempotencyRecord
  get_record key = do
    found ← exec (λ s. some (Keys.find key s, s))
    if_found found (raise not_found) λ d. pure (of_doc d)

  -- While the server answers: a record that is put under a free key is stored, and from then on, as long
  -- as the keys are as that put left them, getting the key gives back the record, with its two times cut
  -- to whole milliseconds and all else as it was, getting another key gives what it gave before, and putting any record under the key is ErrIdempotencyExists and
  -- changes nothing.
  pub get_record-put_record_mongo :
      (r : IdempotencyRecord) (w v : World Keys.State)
      → IsCalm w
      → IsCalm v
      → Keys.find r.key w.db ≡ none
      → v.db ≡ (put_record r w).1.db
      → ((put_record r w).0 ≡ ok stored)
        × ((get_record r.key v).0 ≡ ok (cut_record millisecond r))
        × ((k : String) → (r.key == k) ≡ false → (get_record k v).0 ≡ (get_record k w).0)
        × ((r' : IdempotencyRecord)
            → r'.key ≡ r.key
            → ((put_record r' v).0 ≡ ok exists) × ((put_record r' v).1.db ≡ v.db))
  unfolding put_record get_record ◌>>=◌ exec
  get_record-put_record_mongo r w v calm calm' free kept =
      let c = calm 0 in
      let c' = calm' 0 in
      let put = Keys.insert_lem (to_doc r) w.db in
      let self = eq_refl r.key in
      (
        ground arith,
        ground (arith, Keys.find-write (to_doc r) r.key w.db),
        λ k other. ground (arith, Keys.find-write (to_doc r) k w.db),
        λ r' same.
            let again = Keys.insert_lem (to_doc r') v.db in
            (
              ground (arith, Keys.find-write (to_doc r) r.key w.db),
              ground (arith, Keys.find-write (to_doc r) r.key w.db),
            ),
      )
