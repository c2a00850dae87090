-- ===== src/Pgx/Tx.antt =====
-- pgx-transactions/postgres: the context that carries a transaction (context_executor.go), the
-- interface DBTX (db.go), the transaction manager (tx_manager.go) and the unit of work
-- (unit_of_work.go, and the interface of unitofwork/unit_of_work.go).
pub mod Atomic
pub mod Manager
pub mod Work
pub mod Returns
use go_backend_examples.Common.{ℕ, zero, String, List, Option, none, some, ℤ, pos, ◌≡◌}
use go_backend_examples.Action.{GoError, Result, ok, err, Action, wrapped}
use go_backend_examples.Pgx.Retry.{
  default_tx_max_attempts, serializable_tx_max_attempts, no_backoff, with_retry,
}

-- pgx.TxOptions, of which the program sets the isolation level.
pub data IsoLevel : Type 0 where
  default_level serializable : IsoLevel

-- An argument of a statement.
pub data Arg : Type 0 where
  id : ℕ → Arg
  text : String → Arg
  texts : List String → Arg

-- `MaxAttempts` is an int.
pub record TxConfig : Type 0 where
  pub options : IsoLevel
  pub max_attempts : ℤ

abbrev pub default_tx : TxConfig
default_tx = record { options = default_level; max_attempts = pos default_tx_max_attempts }

abbrev pub serializable_tx : TxConfig
serializable_tx = record { options = serializable; max_attempts = pos serializable_tx_max_attempts }

-- What pgx and its companions do: statements over a pool and over a transaction, pgx.BeginTxFunc and
-- pgx.BeginFunc on a pool, the `select` of a backoff, and uuid.New. `W` is the state of the world, the
-- database included, and `Tx` the handle of a transaction.
pub record Driver (W Tx : Type 0) : Type 1 where
  pub pool_exec : String → List Arg → Action W (Unit {0})
  pub tx_exec : Tx → String → List Arg → Action W (Unit {0})
  pub begin_tx_func : {A : Type 0} → IsoLevel → (Tx → Action W A) → Action W A
  pub begin_func : {A : Type 0} → (Tx → Action W A) → Action W A
  pub await : ℕ → W → Option GoError × W
  pub new_uuid : W → ℕ × W

-- A context.Context, as far as the program reads it.
pub record Context (Tx : Type 0) : Type 0 where
  pub tx : Option Tx

module _ {W Tx : Type 0} (d : Driver W Tx) where
  -- A value of the interface DBTX, of which the commands use `Exec`: it takes the context first.
  abbrev pub Dbtx : Type 0
  Dbtx = Context Tx → String → List Arg → Action W (Unit {0})

  abbrev pub pool_db : Dbtx
  pool_db ctx = d.pool_exec

  abbrev pub tx_db : Tx → Dbtx
  tx_db tx ctx = d.tx_exec tx

  abbrev pub context_with_tx : Context Tx → Tx → Context Tx
  context_with_tx ctx tx = record { tx = some tx }

  abbrev pub executor_of : Option Tx → Dbtx
  executor_of none = pool_db
  executor_of (some tx) = tx_db tx

  abbrev pub executor_from_context : Context Tx → Dbtx
  executor_from_context ctx = executor_of ctx.tx

  abbrev pub context_executor : Dbtx
  context_executor ctx sql args =
      wrapped "exec postgres context executor" (executor_from_context ctx ctx sql args)
