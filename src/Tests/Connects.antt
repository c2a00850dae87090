-- ===== src/Tests/Connects.antt =====
-- The connection of the logging example: the last tracer stands, and no pool without a configuration.
use go_backend_examples.Common.{ℕ, String, ◌≡◌, refl, List, [], ◌∷◌}
use go_backend_examples.Action.{ok, err, plain, wrap}
use go_backend_examples.Log.Database.{
  Pgxpool, with_tracer, configured, connect, migrate, create_users,
}

-- A pool is its configuration, which is the number of its tracer; the world is the statements.
abbrev pgxpool : Pgxpool (List String) ℕ ℕ ℕ
pgxpool = record {
  parse_config = λ dsn w. (ok 0, w);
  set_tracer = λ tracer config. tracer;
  new_with_config = λ config w. (ok config, w);
  exec = λ pool sql w. (ok tt, sql ∷ w);
}

abbrev refusing : Pgxpool (List String) ℕ ℕ ℕ
refusing = record {
  parse_config = λ dsn w. (err (plain "cannot parse"), w);
  set_tracer = λ tracer config. tracer;
  new_with_config = λ config w. (ok config, w);
  exec = λ pool sql w. (ok tt, sql ∷ w);
}

last_tracer :
    connect pgxpool "dsn" (with_tracer pgxpool 1 ∷ with_tracer pgxpool 2 ∷ []) [] ≡ (ok 2, [])
unfolding configured
last_tracer = refl

no_config :
    connect refusing "dsn" [] [] ≡ (err (wrap "parse pool config" (plain "cannot parse")), [])
no_config = refl

migrated : migrate pgxpool 2 [] ≡ (ok tt, create_users ∷ [])
migrated = refl
