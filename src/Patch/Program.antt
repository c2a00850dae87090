-- ===== src/Patch/Program.antt =====
-- The program of the optional example: optional/main.go, and the routes of handler.go.
use go_backend_examples.Common.{ℕ, String, List, [], ◌∷◌, Option, none, some, Bytes}
use go_backend_examples.Action.{GoError, Action, deferred, wrapped, ◌>>=◌, ◌>>◌}
use go_backend_examples.Patch.{Body, patch_user}
use go_backend_examples.Patch.Store.{UserRow, Arg, update_bio, get_user}

-- What a handler reads of a request: the path value `id`, and the field `bio` of the body.
pub record Request : Type 0 where
  pub id : Bytes
  pub field : Option (Option Bytes)

abbrev pub Handler : Type 0 → Type 0
Handler W = Request → W → (ℕ × Body) × W

-- What the program calls outside of the repository: the container of the database, pgxpool, the server,
-- the logger, and json.Unmarshal into a string.
pub record Infra (W Container Pool Row : Type 0) : Type 0 where
  pub run_container : Action W Container
  pub terminate_container : Container → W → Option GoError × W
  pub connection_string : Container → Action W String
  pub new_pool : String → Action W Pool
  pub close_pool : Pool → W → W
  pub exec : Pool → String → Action W (Unit {0})
  pub query_row : Pool → String → List Arg → W → Row × W
  pub scan : Row → W → Option UserRow × W
  pub decode : Bytes → Option Bytes
  pub listen_and_serve : List (String × Handler W) → Action W (Unit {0})
  pub println : String → W → W
  pub printf : String → GoError → W → W

abbrev pub create_table : String
create_table =
    "\n\t\tCREATE TABLE users (\n\t\t\tid BIGSERIAL PRIMARY KEY,\n\t\t\tname TEXT NOT NULL,\n\t\t\tbio TEXT NULL\n\t\t);\n\t"

abbrev pub insert_alice : String
insert_alice = "\n\t\tINSERT INTO users (name, bio) VALUES\n\t\t\t('Alice', 'original bio');\n\t"

module _ {W Container Pool Row : Type 0} (env : Infra W Container Pool Row) where
  abbrev pub migrate : Pool → Action W (Unit {0})
  migrate pool = wrapped "migrate optional example" (env.exec pool create_table)

  abbrev pub seed : Pool → Action W (Unit {0})
  seed pool = wrapped "seed optional example" (env.exec pool insert_alice)

  -- RegisterRoutes, of a handler over the pool.
  abbrev pub register_routes : Pool → List (String × Handler W)
  register_routes pool =
      ("GET /users/{id}", λ r. get_user (env.query_row pool) env.scan r.id)
      ∷ (
        "PATCH /users/{id}",
        λ r. patch_user env.decode (update_bio (env.query_row pool) env.scan) r.id r.field,
      )
      ∷ []

  abbrev pub print_hints : W → W
  print_hints w = env.println "curl -X PATCH localhost:8080/users/1 -d '{\"bio\":null}'" (
      env.println "curl -X PATCH localhost:8080/users/1 -d '{\"bio\":\"new bio\"}'"
        (env.println "curl -X PATCH localhost:8080/users/1 -d '{}'" (env.println "try:" w)))

  -- The server, from the printed lines on.
  abbrev pub serve : Pool → Action W (Unit {0})
  serve pool w =
      wrapped "listen and serve" (env.listen_and_serve (register_routes pool)) (print_hints w)

  abbrev pub run_on_pool : Pool → Action W (Unit {0})
  run_on_pool pool = migrate pool >> (seed pool >> serve pool)

  abbrev pub report : Option GoError → W → W
  report none w = w
  report (some e) w = env.printf "terminate postgres container" e w

  -- The deferred call that terminates the container.
  abbrev pub terminated : Container → W → W
  terminated c w = let (e, w') = env.terminate_container c w in report e w'

  abbrev pub run_in_container : Container → Action W (Unit {0})
  run_in_container c =
      wrapped "postgres connection string" (env.connection_string c)
      >>= (λ dsn. wrapped "connect postgres" (env.new_pool dsn))
      >>= λ pool. deferred (env.close_pool pool) (run_on_pool pool)

  -- run.
  abbrev pub run : Action W (Unit {0})
  run = wrapped "run postgres container" env.run_container >>= λ c.
      deferred (terminated c) (run_in_container c)
