-- ===== src/Api/Idempotency/Tests.antt =====
-- internal/api/idempotency_test.go: a handler that counts its calls, behind the middleware.
use gripe.Api.Recorder.{
  Write, bytes, header, new_recorder, serve, body_of, IsResponse, serve-IsResponse,
}
use gripe.Common.{
  ℕ, suc, String, ◌≡◌, refl, none, some, List, [], ◌∷◌, ◌==◌, eq_iff, trim_space, is_blank, true,
  false, arith,
}
use gripe.Storage.{Collection}
use gripe.Storage.Listed.{listed}
use gripe.Exec.{after_command, World, ok, Action, answered, ◌>>=◌}
use gripe.Api.{Request, Response}
use gripe.Api.Idempotency.{IdempotencyRecord, Site, inner, new_record, idempotency_middleware}
use gripe.Api.Idempotency.Replay.{IsWrite, middleware-replays, expired_key_runs_again}

abbrev created_response : Response
created_response = record { status = 201; body = "created"; replayed = false }

abbrev count : Request → Action ℕ Response
count request w = (ok created_response, record w { db = suc w.db })

abbrev create_request : Request
create_request = record {
  method = "POST";
  path = "/v1/payments";
  id = "";
  idempotency_key = " key-1 ";
  actor = none;
  body = some "{}";
}

abbrev world_with : List IdempotencyRecord → ℕ → World (Site ℕ (List IdempotencyRecord))
world_with records t = record {
  db = record { app = 0; records = records };
  outcomes = λ n. answered;
  readings = λ n. t;
  random = λ n. "a";
}

abbrev keys : Collection ◌==◌ (λ (r : IdempotencyRecord). r.key)
keys = listed ◌==◌ (λ r. r.key) eq_iff

abbrev as_is : String → String
as_is s = s

is_write : IsWrite create_request "key-1" "{}"
unfolding trim_space is_blank
is_write = record { is_post = refl; has_key = refl; not_blank = refl; has_body = refl }

abbrev first_world : World (Site ℕ (List IdempotencyRecord))
first_world = world_with [] 5

abbrev kept_record : IdempotencyRecord
kept_record = new_record "key-1" none "{}" created_response 5 100

-- In a database that keeps times in units of 20.
abbrev found_record : IdempotencyRecord
found_record = record kept_record { created_at = 0; expires_at = 100 }

middleware-replays_example :
    let (result, v') =
      idempotency_middleware keys as_is as_is 100 count create_request
        (world_with (found_record ∷ []) 85) in
    (result ≡ ok (record created_response { replayed = true }))
    × (v'.db ≡ record { app = 0; records = found_record ∷ [] })
unfolding idempotency_middleware trim_space is_blank ◌>>=◌
middleware-replays_example =
    middleware-replays keys as_is as_is 100 count create_request create_request "key-1" "{}"
      created_response first_world (world_with (found_record ∷ []) 85)
      (record (inner (after_command first_world)) { db = 1 }) 20 is_write is_write refl refl refl
      refl refl refl refl (omega arith) (omega arith)

abbrev late_world : World (Site ℕ (List IdempotencyRecord))
late_world = world_with (kept_record ∷ []) 106

expired_key_runs_again_example :
    let (result, w') =
      idempotency_middleware keys as_is as_is 100 count create_request late_world in
    (result ≡ ok created_response) × (w'.db.app ≡ 1) × (w'.db.records ≡ late_world.db.records)
expired_key_runs_again_example =
    expired_key_runs_again keys as_is as_is 100 count create_request "key-1" "{}" kept_record
      late_world is_write refl refl refl

-- A handler that writes its body in two parts, and a header too late.
abbrev writes : List Write
writes = bytes "{" ∷ header 404 ∷ bytes "}" ∷ []

serve-IsResponse_example :
    let r = serve writes new_recorder in
    IsResponse 200 r.passed
    × (r.status ≡ 200)
    × (r.buf ≡ body_of writes)
    × (body_of r.passed ≡ r.buf)
serve-IsResponse_example = serve-IsResponse writes

recorded : (serve writes new_recorder).buf ≡ "{}"
unfolding serve
recorded = refl
