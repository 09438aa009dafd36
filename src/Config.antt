-- ===== src/Config.antt =====
-- internal/config/config.go and internal/bootstrap/store.go: the configuration that a process reads
-- from its environment, and the store that it opens. `strings.ToLower` and the connections are the
-- libraries'.
pub mod Accepted
pub mod Tests
use gripe.Common.{String, Option, none, some, ◌==◌, trim_space, if◌then◌else◌}

pub record Config : Type 0 where
  pub backend : String
  pub api_addr : String
  pub mongo_uri : String
  pub mongo_db : String
  pub pg_writer_dsn : String
  pub pg_reader_dsn : String
  pub aws_region : String
  pub sqs_payment_created_url : String
  pub sqs_fraud_url : String
  pub sqs_fee_url : String

pub data ConfigError : Type 0 where
  mongo_uri_required pg_writer_dsn_required backend_required : ConfigError
  backend_unknown : String → ConfigError

-- `os.Getenv`: the empty text where the variable is not set.
abbrev pub Environment : Type 0
Environment = String → String

abbrev pub getenv_default : Environment → String → String → String
getenv_default env key default = if env key == "" then default else env key

-- The switch on the backend; the reader defaults to the writer.
unfoldable pub checked : Config → Config × Option ConfigError
checked c =
    if c.backend == "mongo"
    then (c, (if c.mongo_uri == "" then some mongo_uri_required else none))
    else if c.backend == "postgres"
    then (if c.pg_writer_dsn == ""
        then (c, some pg_writer_dsn_required)
        else if c.pg_reader_dsn == ""
        then (record c { pg_reader_dsn = c.pg_writer_dsn }, none)
        else (c, none))
    else if c.backend == ""
    then (c, some backend_required)
    else (c, some (backend_unknown c.backend))

module _ (to_lower : String → String) where
  abbrev pub read_env : Environment → Config
  read_env env = record {
    backend = to_lower (trim_space (env "GRIPE_BACKEND"));
    api_addr = getenv_default env "API_ADDR" ":8080";
    mongo_uri = env "MONGO_URI";
    mongo_db = getenv_default env "MONGO_DB" "gripe";
    pg_writer_dsn = env "PG_WRITER_DSN";
    pg_reader_dsn = env "PG_READER_DSN";
    aws_region = env "AWS_REGION";
    sqs_payment_created_url = env "SQS_PAYMENT_CREATED_URL";
    sqs_fraud_url = env "SQS_FRAUD_URL";
    sqs_fee_url = env "SQS_FEE_URL";
  }

  unfoldable pub from_env : Environment → Config × Option ConfigError
  unfolding checked
  from_env env = checked (read_env env)

-- `none` is the error for an unknown backend.
unfoldable pub open_store : {A : Type 0} → (String → String → A) → (String → A) → Config → Option A
open_store mongo postgres c =
    if c.backend == "mongo"
    then some (mongo c.mongo_uri c.mongo_db)
    else if c.backend == "postgres"
    then some (postgres c.pg_writer_dsn)
    else none
