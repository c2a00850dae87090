-- ===== src/Log/Database.antt =====
-- logging/postgres/db.go: the connection with its options, and the migration.
use go_backend_examples.Common.{String, List, [], ◌∷◌}
use go_backend_examples.Action.{Action, wrapped, ◌>>=◌}

-- What pgxpool does: ParseConfig, the storing of a tracer in a configuration, NewWithConfig and Exec.
pub record Pgxpool (W Config Pool Tracer : Type 0) : Type 0 where
  pub parse_config : String → Action W Config
  pub set_tracer : Tracer → Config → Config
  pub new_with_config : Config → Action W Pool
  pub exec : Pool → String → Action W (Unit {0})

abbrev pub create_users : String
create_users =
    "\n\t\tCREATE TABLE IF NOT EXISTS users (\n\t\t\tid UUID PRIMARY KEY,\n\t\t\tusername TEXT NOT NULL UNIQUE,\n\t\t\tpassword TEXT NOT NULL\n\t\t);\n\t"

module _ {W Config Pool Tracer : Type 0} (env : Pgxpool W Config Pool Tracer) where
  abbrev pub ConfigFunc : Type 0
  ConfigFunc = Config → Config

  abbrev pub with_tracer : Tracer → ConfigFunc
  with_tracer = env.set_tracer

  -- The options, in their order.
  unfoldable pub configured : List ConfigFunc → Config → Config
  configured [] config = config
  configured (opt ∷ opts) config = configured opts (opt config)

  abbrev pub connect : String → List ConfigFunc → Action W Pool
  connect dsn opts = wrapped "parse pool config" (env.parse_config dsn) >>= λ config.
      wrapped "connect pgx pool" (env.new_with_config (configured opts config))

  abbrev pub migrate : Pool → Action W (Unit {0})
  migrate pool = wrapped "migrate logging example" (env.exec pool create_users)
