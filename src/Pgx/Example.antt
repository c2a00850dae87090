-- ===== src/Pgx/Example.antt =====
-- The example program itself: pgx-transactions/main.go, migrations.go, and Connect of postgres/db.go.
pub mod Created
pub mod Closed
use go_backend_examples.Common.{ℕ, String, List, [], ◌∷◌, Option, none, some}
use go_backend_examples.Action.{GoError, ok, Action, pure, deferred, wrapped, ◌>>=◌, ◌>>◌}
use go_backend_examples.Pgx.Tx.{
  Driver, Context, Dbtx, default_tx, serializable_tx, context_executor, pool_db,
}
use go_backend_examples.Pgx.Users.{
  CreateUserWithProfileInput, UserService, create_user, create_profile, create_in_ctx,
  create_in_work, application, pgx_transactional_user_service, tx_manager_user_service,
  unit_of_work_user_service, service_on,
}

abbrev pub create_tables : String
create_tables =
    "\n\t\tCREATE TABLE IF NOT EXISTS users (\n\t\t\tid UUID PRIMARY KEY,\n\t\t\tusername VARCHAR(255) NOT NULL UNIQUE,\n\t\t\tpassword TEXT NOT NULL\n\t\t);\n\n\t\tCREATE TABLE IF NOT EXISTS profiles (\n\t\t\tuser_id UUID PRIMARY KEY REFERENCES users(id) ON DELETE CASCADE,\n\t\t\tdescription VARCHAR(255),\n\t\t\tcontact VARCHAR(255),\n\t\t\tsocial_media_links VARCHAR(255)[]\n\t\t);\n\t"

-- What the program calls outside of the repository: the container of the database, pgxpool, whose
-- pools have a driver, and both loggers. `set_tracer` stores the logging tracer in a configuration.
pub record Infra (W Tx Container Config Pool : Type 0) : Type 1 where
  pub run_container : Action W Container
  pub terminate_container : Container → W → Option GoError × W
  pub connection_string : Container → Action W String
  pub parse_config : String → Action W Config
  pub set_tracer : Config → Config
  pub new_with_config : Config → Action W Pool
  pub close_pool : Pool → W → W
  pub on_pool : Pool → Driver W Tx
  pub info : String → ℕ → W → W
  pub printf : String → GoError → W → W

abbrev pub example_password : String
example_password = "secret"

abbrev pub input_of : String → String → String → String → CreateUserWithProfileInput
input_of username description contact link = record {
  username = username;
  password = example_password;
  description = description;
  contact = contact;
  social_media_links = link ∷ [];
}

-- The inputs of the five calls.
abbrev pub in_ctx_input : CreateUserWithProfileInput
in_ctx_input =
    input_of "approach-tx-in-ctx" "context transaction profile" "approach-tx-in-ctx@example.com"
      "https://github.com/example/approach-tx-in-ctx"

abbrev pub in_work_input : CreateUserWithProfileInput
in_work_input =
    input_of "approach-unit-of-work" "unit of work profile" "approach-unit-of-work@example.com"
      "https://github.com/example/approach-unit-of-work"

abbrev pub transactional_input : CreateUserWithProfileInput
transactional_input =
    input_of "approach-transactional-service" "recreate service per request"
      "approach-transactional-service@example.com"
      "https://github.com/example/approach-transactional-service"

abbrev pub tx_manager_input : CreateUserWithProfileInput
tx_manager_input =
    input_of "approach-tx-manager" "tx manager transaction profile"
      "approach-tx-manager@example.com" "https://github.com/example/approach-tx-manager"

abbrev pub work_service_input : CreateUserWithProfileInput
work_service_input =
    input_of "approach-unit-of-work-service" "unit of work transaction profile"
      "approach-unit-of-work-service@example.com"
      "https://github.com/example/approach-unit-of-work-service"

module _ {W Tx Container Config Pool : Type 0} (env : Infra W Tx Container Config Pool) where
  abbrev pub ConfigFunc : Type 0
  ConfigFunc = Config → Config

  abbrev pub with_tracer : ConfigFunc
  with_tracer = env.set_tracer

  unfoldable pub configured : List ConfigFunc → Config → Config
  configured [] c = c
  configured (o ∷ os) c = configured os (o c)

  -- Connect.
  abbrev pub connect : String → List ConfigFunc → Action W Pool
  connect dsn options = wrapped "parse pool cfg" (env.parse_config dsn) >>= λ config.
      wrapped "connect pgx" (env.new_with_config (configured options config))

  abbrev pub migrate : (d : Driver W Tx) → Dbtx d → Context Tx → Action W (Unit {0})
  migrate d db ctx = wrapped "migrate pgx transactions" (db ctx create_tables [])

  -- The deferred call that terminates the container.
  abbrev pub report : Option GoError → W → W
  report none w = w
  report (some e) w = env.printf "terminate postgres container" e w

  abbrev pub terminated : Container → W → W
  terminated c w = let (e, w') = env.terminate_container c w in report e w'

  -- One of the five parts: a creation, with what its error is wrapped in, and the line that is logged.
  abbrev pub created_and_logged :
      (d : Driver W Tx)
      → Context Tx
      → String
      → String
      → UserService d
      → CreateUserWithProfileInput
      → Action W (Unit {0})
  created_and_logged d ctx failing done service input =
      wrapped failing (service ctx input) >>= λ r w. (ok tt, env.info done r.user.user_id w)

  module _ (d : Driver W Tx) (ctx : Context Tx) where
    -- The five parts in their order.
    abbrev pub create_first : Action W (Unit {0})
    create_first =
        created_and_logged d ctx "approach-tx-in-ctx create user with profile"
          "approach-tx-in-ctx created user and profile"
          (create_in_ctx d default_tx (create_user d (context_executor d))
            (create_profile d (context_executor d)))
          in_ctx_input

    abbrev pub create_second : Action W (Unit {0})
    create_second =
        created_and_logged d ctx "approach-unit-of-work create user with profile"
          "approach-unit-of-work created user and profile" (create_in_work d default_tx)
          in_work_input

    abbrev pub create_third : Action W (Unit {0})
    create_third =
        created_and_logged d ctx "approach-transactional-service create user with profile"
          "approach-transactional-service created user and profile"
          (application d (pgx_transactional_user_service d)) transactional_input

    abbrev pub create_fourth : Action W (Unit {0})
    create_fourth =
        created_and_logged d ctx "approach-tx-manager create user with profile"
          "approach-tx-manager created user and profile"
          (tx_manager_user_service d serializable_tx (service_on d (context_executor d)))
          tx_manager_input

    abbrev pub create_fifth : Action W (Unit {0})
    create_fifth =
        created_and_logged d ctx "approach-unit-of-work-service create user with profile"
          "approach-unit-of-work-service created user and profile"
          (unit_of_work_user_service d default_tx) work_service_input

    abbrev pub create_all : Action W (Unit {0})
    create_all =
        create_first
        >> (create_second >> (create_third >> (create_fourth >> (create_fifth >> pure tt))))

    abbrev pub run_on_pool : Action W (Unit {0})
    run_on_pool = wrapped "migrate" (migrate d (pool_db d) ctx) >> create_all

  abbrev pub run_in_container : Context Tx → Container → Action W (Unit {0})
  run_in_container ctx c =
      wrapped "postgres connection string" (env.connection_string c)
      >>= (λ dsn. wrapped "connect postgres" (connect dsn (with_tracer ∷ [])))
      >>= λ pool. deferred (env.close_pool pool) (run_on_pool (env.on_pool pool) ctx)

  -- run.
  abbrev pub run : Context Tx → Action W (Unit {0})
  run ctx = wrapped "run postgres container" env.run_container >>= λ c.
      deferred (terminated c) (run_in_container ctx c)
