-- ===== src/Api/Actors.antt =====
-- internal/api/actor.go: the middleware that attaches the caller to a request.
use gripe.Common.{String, false, Option, none, some, ◌==◌, ◌||◌, trim_space, if◌then◌else◌}
use gripe.Domain.{ActorRole, admin, merchant, customer}
use gripe.Exec.{Action, pure}
use gripe.Api.{Request, Response}

-- The switch on the role; `none` is the default case.
unfoldable pub role_of : String → Option ActorRole
role_of role =
    if role == "admin"
    then some admin
    else if role == "merchant"
    then some merchant
    else if role == "customer"
    then some customer
    else none

module _ {D : Type 0} (error_json : String → String) where
  abbrev pub bad_request : String → Action D Response
  bad_request message = pure (record { status = 400; body = error_json message; replayed = false })

  abbrev pub with_role :
      (Request → Action D Response) → String → Request → Option ActorRole → Action D Response
  with_role next id request none =
      bad_request "X-Actor-Role must be one of: admin, merchant, customer"
  with_role next id request (some role) =
      next (record request { actor = some (record { role = role; id = id }) })

  -- The headers X-Actor-Role and X-Actor-Id come beside the request.
  unfoldable pub actor_middleware :
      (Request → Action D Response) → String → String → Request → Action D Response
  actor_middleware next role_header id_header request =
      let role = trim_space role_header in
      let id = trim_space id_header in
      if role == "" || id == ""
      then bad_request "X-Actor-Role and X-Actor-Id headers are required on /v1 routes"
      else with_role next id request (role_of role)
