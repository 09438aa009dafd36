-- ===== src/Api.antt =====
-- internal/api: the requests that reach a handler and the responses that it writes.
pub mod Idempotency
pub mod Recorder
pub mod Actors
pub mod Handlers
pub mod Reads
pub mod Routes
use gripe.Common.{ℕ, String, Bool, true, false, Option, none, some}
use gripe.Domain.{Actor}

-- What the middleware and the handlers read of a request. The actor is the one that actorMiddleware
-- attached, `id` the path value of that name; the body is missing where reading it fails.
pub record Request : Type 0 where
  pub method : String
  pub path : String
  pub id : String
  pub idempotency_key : String
  pub actor : Option Actor
  pub body : Option String

-- `replayed` is the header `Idempotency-Replayed`.
pub record Response : Type 0 where
  pub status : ℕ
  pub body : String
  pub replayed : Bool
