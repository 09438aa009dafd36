-- ===== src/Config/Tests.antt =====
-- A configuration on a concrete environment.
use gripe.Common.{String, refl, ◌==◌, trim_space, if◌then◌else◌}
use gripe.Config.{Environment, read_env, from_env, checked}
use gripe.Config.Accepted.{Opens, from_env-Opens}

-- GRIPE_BACKEND=postgres PG_WRITER_DSN=dsn, in which nothing is upper case.
abbrev postgres_env : Environment
postgres_env key =
    if key == "GRIPE_BACKEND" then " postgres" else if key == "PG_WRITER_DSN" then "dsn" else ""

abbrev same_case : String → String
same_case s = s

from_env-Opens_example :
    Opens
      (λ uri db. "mongo")
      (λ dsn. dsn)
      (record (read_env same_case postgres_env) { pg_reader_dsn = "dsn" })
unfolding from_env checked trim_space
from_env-Opens_example =
    from_env-Opens (λ uri db. "mongo") (λ dsn. dsn) same_case postgres_env
      (record (read_env same_case postgres_env) { pg_reader_dsn = "dsn" }) refl
