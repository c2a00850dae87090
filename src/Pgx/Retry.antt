-- ===== src/Pgx/Retry.antt =====
-- pgx-transactions/postgres/retry.go.
pub mod Runs
pub mod Succeeds
use mathlib.Core.Option
use text.Mathlib.Text.{◌==◌ as str_eq}
use go_backend_examples.Common.{
  ℕ, zero, suc, ◌+◌, Bool, true, false, ◌||◌, not, String, ◌==◌, if◌then◌else◌, ℤ, pos, negsuc,
  Option, none, some,
}
use go_backend_examples.Action.{
  GoError, pg_error, invalid_order_state, plain, wrap, Result, ok, err, Action,
}

-- errors.As(err, &pgErr) with the test of the code: the first *pgconn.PgError of the chain decides.
unfoldable pub is_retryable_tx_error : GoError → Bool
is_retryable_tx_error (pg_error code) = str_eq code "40001" || str_eq code "40P01"
is_retryable_tx_error invalid_order_state = false
is_retryable_tx_error (plain s) = false
is_retryable_tx_error (wrap s e) = is_retryable_tx_error e

abbrev pub default_tx_max_attempts : ℕ
default_tx_max_attempts = 1

abbrev pub serializable_tx_max_attempts : ℕ
serializable_tx_max_attempts = 3

-- A duration is a signed number of nanoseconds.
abbrev pub BackoffFunc : Type 0
BackoffFunc = ℕ → ℤ

abbrev pub no_backoff : BackoffFunc
no_backoff attempt = pos 0

-- The `select` of `retrySleep` is `await`: an error of the context, or none when the time has passed.
unfoldable pub sleep_for {ℓ} :
    {W : Type ℓ} → (ℕ → W → Option GoError × W) → ℤ → W → Option GoError × W
sleep_for await (pos zero) w = (none, w)
sleep_for await (negsuc n) w = (none, w)
sleep_for await (pos (suc n)) w =
    let (e, w') = await (suc n) w in (Option.map (wrap "retry backoff context") e, w')

unfoldable pub retry_sleep {ℓ} :
    {W : Type ℓ} → (ℕ → W → Option GoError × W) → BackoffFunc → ℕ → W → Option GoError × W
unfolding sleep_for
retry_sleep await backoff attempt = sleep_for await (backoff attempt)

-- `A` is what `fn` leaves in the variables that it captures; `unset` is their initial value.
module _ {ℓ κ} {W : Type ℓ} {A : Type κ} (await : ℕ → W → Option GoError × W)
    (backoff : BackoffFunc) (fn : Action W A) (unset : A) where
  unfoldable pub after_sleep : Action W A → Option GoError → Action W A
  after_sleep again none w = again w
  after_sleep again (some e) w = (err (wrap "retry backoff" e), w)

  -- The body of the loop behind the call of `fn`; `again` is the next round.
  unfoldable pub after_attempt : ℕ → ℕ → Action W A → Result A → Action W A
  unfolding after_sleep
  after_attempt max attempt again (ok a) w = (ok a, w)
  after_attempt max attempt again (err e) w =
      if not (is_retryable_tx_error e) || attempt == max
      then (err e, w)
      else (let (slept, w') = retry_sleep await backoff attempt w in after_sleep again slept w')

  -- The rounds that are left, `max - attempt + 1`, and the attempt.
  unfoldable pub retry_loop : ℕ → ℕ → ℕ → Action W A
  retry_loop max zero attempt w = (ok unset, w)
  retry_loop max (suc n) attempt w =
      let (r, w') = fn w in after_attempt max attempt (retry_loop max n (attempt + 1)) r w'

  unfoldable pub with_retry : ℤ → Action W A
  with_retry (pos zero) = retry_loop default_tx_max_attempts default_tx_max_attempts 1
  with_retry (negsuc n) = retry_loop default_tx_max_attempts default_tx_max_attempts 1
  with_retry (pos (suc n)) = retry_loop (suc n) (suc n) 1
