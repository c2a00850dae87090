-- ===== src/Pgx/Example/Closed.antt =====
-- How the whole program ends: what it has created, and in which order it closes what it has opened.
use go_backend_examples.Common.{ℕ, String, ◌≡◌, List, [], ◌∷◌}
use go_backend_examples.Action.{GoError, wrap, Result, ok, err, Action, wrapped, ◌>>=◌}
use go_backend_examples.Pgx.Tx.{Arg, Context}
use go_backend_examples.Pgx.Tx.Atomic.{Database, IsAtomic, IsTransactional}
use go_backend_examples.Pgx.Example.{Infra, create_tables, connect, with_tracer, terminated}
use go_backend_examples.Pgx.Example.Created.{all_inputs, Ends}

module _ {W Tx S Container Config Pool : Type 0} (env : Infra W Tx Container Config Pool)
    (db : Database W Tx S) (effect : String → List Arg → S → S) where
  -- What the program relies on: the driver of every pool is transactional, a statement on the pool is
  -- a transaction of its own, and neither the connecting nor the logging writes to the database.
  pub record IsInfra : Type 1 where
    pub driver_law : (p : Pool) → IsTransactional (env.on_pool p) db effect
    pub pool_exec_law :
        (p : Pool) (sql : String) (args : List Arg)
        → IsAtomic db (λ _. effect sql args) ((env.on_pool p).pool_exec sql args)
    pub connection_string_law :
        (c : Container) (w : W) → db.committed (env.connection_string c w).1 ≡ db.committed w
    pub parse_config_law :
        (dsn : String) (w : W) → db.committed (env.parse_config dsn w).1 ≡ db.committed w
    pub new_with_config_law :
        (config : Config) (w : W) → db.committed (env.new_with_config config w).1 ≡ db.committed w
    pub info_law : (s : String) (n : ℕ) (w : W) → db.committed (env.info s n w) ≡ db.committed w

  module _ (laws : IsInfra) where
    -- `RunEnds w o`: from the world `w` on, the program ends as `o`. The container is terminated
    -- after the pool has been closed, and the pool after all that runs on it.
    pub data RunEnds : W → Result (Unit {0}) × W → Type 0 where
      not_started :
          {w w₁ : W} {e : GoError}
          → env.run_container w ≡ (err e, w₁)
          → RunEnds w (err (wrap "run postgres container" e), w₁)
      not_connected :
          {w w₁ w₂ : W} {c : Container} {e : GoError}
          → env.run_container w ≡ (ok c, w₁)
          → db.committed w₂ ≡ db.committed w₁
          → RunEnds w (err e, terminated env c w₂)
      not_migrated :
          {w w₁ w₂ : W} {c : Container} {e : GoError} (p : Pool)
          → env.run_container w ≡ (ok c, w₁)
          → db.committed w₂ ≡ db.committed w₁
          → RunEnds w (err e, terminated env c (env.close_pool p w₂))
      migrated :
          {w w₁ : W} {c : Container} {r : Result (Unit {0})} (p : Pool) (w₂ : W)
          → env.run_container w ≡ (ok c, w₁)
          → Ends db effect all_inputs (effect create_tables [] (db.committed w₁)) (r, w₂)
          → RunEnds w (r, terminated env c (env.close_pool p w₂))

    module _ (ctx : Context Tx) (w w₁ : W) (c : Container)
        (started : env.run_container w ≡ (ok c, w₁)) where
      -- The connection, which leaves the database.
      abbrev connection : Action W Pool
      connection = wrapped "postgres connection string" (env.connection_string c) >>= λ dsn.
          wrapped "connect postgres" (connect env dsn (with_tracer env ∷ []))
