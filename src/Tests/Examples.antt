-- ===== src/Tests/Examples.antt =====
-- The program of pgx-transactions on a database in memory.
use go_backend_examples.Common.{ℕ, String, ◌≡◌, refl, List, [], ◌∷◌, none}
use go_backend_examples.Action.{ok}
use go_backend_examples.Pgx.Retry.{with_retry, retry_loop, after_attempt}
use go_backend_examples.Pgx.Tx.{Context}
use go_backend_examples.Pgx.Users.{insert_user, insert_profile}
use go_backend_examples.Pgx.Example.{Infra, create_tables, configured, run}
use go_backend_examples.Tests.Memory.{World, memory}
use go_backend_examples.Tests.Transactions.{write}

-- The container is the number of the world's next id, and the pool the name of its database.
abbrev infra : Infra (World (List String)) (Unit {0}) ℕ String String
infra = record {
  run_container = λ w. (ok w.next, w);
  terminate_container = λ c w. (none, w);
  connection_string = λ c w. (ok "postgres://app", w);
  parse_config = λ dsn w. (ok dsn, w);
  set_tracer = λ config. config;
  new_with_config = λ config w. (ok config, w);
  close_pool = λ p w. w;
  on_pool = λ p. memory write;
  info = λ s n w. w;
  printf = λ s e w. w;
}

abbrev background : Context (Unit {0})
background = record { tx = none }

abbrev start : World (List String)
start = record { rows = []; open_rows = []; next = 7 }

-- The tables, and five users with their profiles.
eleven_statements :
    (run infra background start).1.rows
    ≡ insert_profile ∷ insert_user ∷ insert_profile ∷ insert_user ∷ insert_profile ∷ insert_user
      ∷ insert_profile ∷ insert_user ∷ insert_profile ∷ insert_user ∷ create_tables ∷ []
unfolding with_retry retry_loop after_attempt configured
eleven_statements = refl
