-- ===== src/Pgx/Retry/Succeeds.antt =====
-- That `with_retry` gets to an attempt that succeeds.
use go_backend_examples.Common.{
  ℕ, zero, suc, ◌+◌, ◌≤◌, ◌<◌, ◌≡◌, ◌≢◌, refl, ◌∙◌, ℤ, pos, negsuc, Option, none, arith,
}
use go_backend_examples.Action.{GoError, Result, ok, err, Action}
use go_backend_examples.Pgx.Retry.{
  BackoffFunc, sleep_for, retry_sleep, after_attempt, retry_loop, with_retry,
}
use go_backend_examples.Pgx.Retry.Runs.{allowed, IsRetryable}

module _ {ℓ κ} {W : Type ℓ} {A : Type κ} (fn : Action W A) where
  -- The world that `n` attempts leave.
  abbrev pub world_after : ℕ → W → W
  world_after zero w = w
  world_after (suc n) w = world_after n (fn w).1

module _ {ℓ κ} {W : Type ℓ} {A : Type κ} (await : ℕ → W → Option GoError × W)
    (backoff : BackoffFunc) (fn : Action W A) (unset : A) where
  -- No wait is cut off by the context, nor changes the world.
  abbrev pub Waits : Type ℓ
  Waits = (n : ℕ) (w : W) → await n w ≡ (none, w)

  sleep_for-Waits : (d : ℤ) (w : W) → Waits → sleep_for await d w ≡ (none, w)
  unfolding sleep_for
  sleep_for-Waits (pos zero) w h = refl
  sleep_for-Waits (negsuc n) w h = refl
  sleep_for-Waits (pos (suc n)) w h = rw (h (suc n) w)

  after_success :
      (max attempt : ℕ) (more : Action W A) (a : A) (r : Result A) (w : W)
      → r ≡ ok a
      → after_attempt await backoff fn unset max attempt more r w ≡ (r, w)
  unfolding after_attempt
  after_success max attempt more a (ok b) w e = refl
  after_success max attempt more a (err x) w e = cc

  after_failure :
      (max attempt : ℕ) (more : Action W A) (r : Result A) (w : W)
      → attempt ≢ max
      → Waits
      → IsRetryable r
      → after_attempt await backoff fn unset max attempt more r w ≡ more w
  unfolding after_attempt retry_sleep
  after_failure max attempt more (ok a) w h waits p = elim p [ ]
  after_failure max attempt more (err e) w h waits p =
      rw (p, sleep_for-Waits (backoff attempt) w waits) (ground arith)

  retry_loop-Succeeds :
      (max n attempt k : ℕ) (w : W) (a : A)
      → attempt + n ≡ max
      → k ≤ n
      → Waits
      → ((i : ℕ) → i < k → IsRetryable (fn (world_after fn i w)).0)
      → (fn (world_after fn k w)).0 ≡ ok a
      → retry_loop await backoff fn unset max (suc n) attempt w ≡ fn (world_after fn k w)
  unfolding retry_loop
  retry_loop-Succeeds max n attempt zero w a h l waits fails e =
      after_success max attempt _ a (fn w).0 (fn w).1 e
  retry_loop-Succeeds max zero attempt (suc k) w a h l waits fails e = absurd (omega (arith, l))
  retry_loop-Succeeds max (suc n) attempt (suc k) w a h l waits fails e =
      after_failure max attempt _ (fn w).0 (fn w).1 (omega (arith, h)) waits (fails 0 (omega arith))
      ∙ retry_loop-Succeeds max n (attempt + 1) k (fn w).1 a (omega (arith, h)) (omega (arith, l))
          waits (λ i j. fails (suc i) (omega (arith, j))) e

  succeeds :
      (n k : ℕ) (w : W) (a : A)
      → k < suc n
      → Waits
      → ((i : ℕ) → i < k → IsRetryable (fn (world_after fn i w)).0)
      → (fn (world_after fn k w)).0 ≡ ok a
      → retry_loop await backoff fn unset (suc n) (suc n) 1 w ≡ fn (world_after fn k w)
  succeeds n k w a l waits fails e =
      retry_loop-Succeeds (suc n) n 1 k w a (omega arith) (omega (arith, l)) waits fails e

  -- If the first `k` attempts fail with a serialization failure or a deadlock, the next one succeeds, and
  -- more than `k` attempts are allowed, then withRetry, with any backoff whose waits the context does
  -- not cut off, returns what that attempt returned, in the world that it left.
  pub with_retry-Succeeds :
      (max : ℤ) (k : ℕ) (w : W) (a : A)
      → k < allowed max
      → Waits
      → ((i : ℕ) → i < k → IsRetryable (fn (world_after fn i w)).0)
      → (fn (world_after fn k w)).0 ≡ ok a
      → with_retry await backoff fn unset max w ≡ fn (world_after fn k w)
  unfolding with_retry
  with_retry-Succeeds (pos zero) k w a l = succeeds 0 k w a l
  with_retry-Succeeds (negsuc n) k w a l = succeeds 0 k w a l
  with_retry-Succeeds (pos (suc n)) k w a l = succeeds n k w a l
