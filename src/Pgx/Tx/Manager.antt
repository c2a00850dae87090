-- ===== src/Pgx/Tx/Manager.antt =====
-- TxManager of pgx-transactions/postgres/tx_manager.go.
use go_backend_examples.Action.{Action, wrapped}
use go_backend_examples.Pgx.Retry.{no_backoff, with_retry}
use go_backend_examples.Pgx.Tx.{TxConfig, Driver, Context, context_with_tx}

-- `A` is what `fn` leaves in the variables that it captures, and `unset` their initial value.
module _ {W Tx A : Type 0} (d : Driver W Tx) (config : TxConfig) (ctx : Context Tx)
    (fn : Context Tx → Action W A) where
  abbrev pub run_attempt : Action W A
  run_attempt = wrapped "pgx tx" (
      d.begin_tx_func config.options
        λ tx. wrapped "run tx function" (fn (context_with_tx d ctx tx)))

  abbrev pub do_tx : A → Action W A
  do_tx unset =
      wrapped "postgres tx attempt"
        (with_retry d.await no_backoff run_attempt unset config.max_attempts)
