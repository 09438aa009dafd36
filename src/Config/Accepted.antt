-- ===== src/Config/Accepted.antt =====
-- What FromEnv accepts, and what OpenStore needs.
use gripe.Common.{String, ◌≡◌, refl, false, none, some, ◌==◌, ◌⊎◌, inl, inr, Bool-cases, arith}
use gripe.Config.{Config, Environment, getenv_default, read_env, checked, from_env, open_store}

getenv_default-not_empty :
    (env : Environment) (key default : String)
    → (default == "") ≡ false
    → (getenv_default env key default == "") ≡ false
getenv_default-not_empty env key default h = elim (Bool-cases (env key == "")) [
  | inl e ↦ rw e h
  | inr e ↦ rw e e
]

module _ {A : Type 0} (mongo : String → String → A) (postgres : String → A) where
  abbrev pub Opens : Config → Type 0
  Opens c =
      ((open_store mongo postgres c ≡ some (mongo c.mongo_uri c.mongo_db))
        × ((c.mongo_uri == "") ≡ false)
        × ((c.mongo_db == "") ≡ false))
      ⊎ ((open_store mongo postgres c ≡ some (postgres c.pg_writer_dsn))
          × ((c.pg_writer_dsn == "") ≡ false)
          × ((c.pg_reader_dsn == "") ≡ false))

  checked-Opens : (d c : Config) → (d.mongo_db == "") ≡ false → checked d ≡ (c, none) → Opens c
  unfolding checked open_store
  checked-Opens d c named h = elim (Bool-cases (d.backend == "mongo")) [
    | inl m ↦ elim (Bool-cases (d.mongo_uri == "")) [
      | inl e ↦ absurd (ground arith)
      | inr e ↦ inl (ground arith, ground arith, ground arith)
    ]
    | inr m ↦ elim (Bool-cases (d.backend == "postgres")) [
      | inl p ↦ elim (Bool-cases (d.pg_writer_dsn == "")) [
        | inl e ↦ absurd (ground arith)
        | inr e ↦ inr (ground arith, ground arith, ground arith)
      ]
      | inr p ↦ absurd (ground arith)
    ]
  ]

  -- A configuration that FromEnv accepts is one of a known backend, and OpenStore opens that one: the
  -- Mongo store by a URI that is set and a database name that is not empty, or the PostgreSQL store
  -- by a DSN that is set, with a reader DSN that is not empty either.
  pub from_env-Opens :
      (to_lower : String → String) (env : Environment) (c : Config)
      → from_env to_lower env ≡ (c, none)
      → Opens c
  unfolding from_env
  from_env-Opens to_lower env c h =
      checked-Opens (read_env to_lower env) c (getenv_default-not_empty env "MONGO_DB" "gripe" refl)
        h
