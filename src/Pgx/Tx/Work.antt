-- ===== src/Pgx/Tx/Work.antt =====
-- pgxUnitOfWork of pgx-transactions/postgres/unit_of_work.go.
use go_backend_examples.Action.{Action, wrapped}
use go_backend_examples.Pgx.Retry.{no_backoff, with_retry}
use go_backend_examples.Pgx.Tx.{TxConfig, Driver, Context, Dbtx, tx_db}

-- `A` is what `fn` leaves in the variables that it captures, and `unset` their initial value.
module _ {ℓ} {W Tx A : Type 0} {T : Type ℓ} (d : Driver W Tx) (config : TxConfig)
    (new_value : Dbtx d → T) (ctx : Context Tx) (fn : Context Tx → T → Action W A) where
  abbrev pub run_attempt : Action W A
  run_attempt =
      wrapped "pgx unit of work"
        (d.begin_tx_func config.options λ tx. fn ctx (new_value (tx_db d tx)))

  abbrev pub do_work : A → Action W A
  do_work unset =
      wrapped "pgx unit of work attempt"
        (with_retry d.await no_backoff run_attempt unset config.max_attempts)
