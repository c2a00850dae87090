-- ===== src/Pgx/Retry/Runs.antt =====
-- What `with_retry` does: it makes attempts as long as they fail with a serialization failure or a
-- deadlock, no more than allowed, and returns the outcome of the last attempt.
use go_backend_examples.Common.{
  ℕ, zero, suc, ◌+◌, ◌≤◌, ◌≡◌, ◌≢◌, refl, true, false, ℤ, pos, negsuc, Option, arith, Bool-cases,
  inl, inr, ◌⊎◌, ◌-◌,
}
use go_backend_examples.Action.{GoError, Result, ok, err, Action}
use go_backend_examples.Pgx.Retry.{
  is_retryable_tx_error, default_tx_max_attempts, no_backoff, retry_sleep, after_attempt,
  retry_loop, with_retry,
}

-- The number of attempts that a setting of `MaxAttempts` allows.
abbrev pub allowed : ℤ → ℕ
allowed (pos zero) = default_tx_max_attempts
allowed (pos (suc n)) = suc n
allowed (negsuc n) = default_tx_max_attempts

-- An outcome after which no further attempt is made, with `n` attempts left.
abbrev pub IsFinal {ℓ} : {A : Type ℓ} → ℕ → Result A → Type 0
IsFinal n (ok a) = Unit
IsFinal n (err e) = (is_retryable_tx_error e ≡ false) ⊎ (n ≡ 0)

-- A serialization failure or a deadlock.
abbrev pub IsRetryable {ℓ} : {A : Type ℓ} → Result A → Type 0
IsRetryable (ok a) = ⊥
IsRetryable (err e) = is_retryable_tx_error e ≡ true

-- `Runs n k w o`: of at most `n + 1` attempts from the world `w` on, `k` are made, and the last one
-- ends as `o`.
module _ {ℓ κ} {W : Type ℓ} {A : Type κ} (fn : Action W A) where
  pub data Runs : ℕ → ℕ → W → Result A × W → Type (ℓ ⊔ κ) where
    last : {n : ℕ} {w : W} {o : Result A × W} → fn w ≡ o → IsFinal n o.0 → Runs n 1 w o
    again :
        {n k : ℕ} {w : W} {o : Result A × W}
        → IsRetryable (fn w).0
        → Runs n k (fn w).1 o
        → Runs (suc n) (suc k) w o

  pub Runs-bounds : {n k : ℕ} {w : W} {o : Result A × W} → Runs n k w o → (1 ≤ k) × (k ≤ n + 1)
  Runs-bounds (last e h) = omega arith
  Runs-bounds (again h r) = omega (arith, Runs-bounds r)

suc_sub_one : (n : ℕ) → suc n - 1 ≡ n
suc_sub_one n = omega arith

module _ {ℓ κ} {W : Type ℓ} {A : Type κ} (await : ℕ → W → Option GoError × W) (fn : Action W A)
    (unset : A) where
  -- The last attempt that is allowed ends the loop, whatever its outcome.
  after_attempt_last :
      (max attempt : ℕ) (more : Action W A) (r : Result A) (w : W)
      → attempt ≡ max
      → after_attempt await no_backoff fn unset max attempt more r w ≡ (r, w)
  unfolding after_attempt
  after_attempt_last max attempt more (ok a) w h = refl
  after_attempt_last max attempt more (err e) w h = ground arith

  IsFinal-zero : (r : Result A) → IsFinal 0 r
  IsFinal-zero (ok a) = tt
  IsFinal-zero (err e) = inr refl

  -- An attempt before the last one ends the loop, or is followed by the rest of it.
  after_attempt_more :
      (max attempt n : ℕ) (more : Action W A) (r : Result A) (w : W)
      → attempt ≢ max
      → (IsFinal n r × (after_attempt await no_backoff fn unset max attempt more r w ≡ (r, w)))
        ⊎ (IsRetryable r × (after_attempt await no_backoff fn unset max attempt more r w ≡ more w))
  unfolding after_attempt retry_sleep
  after_attempt_more max attempt n more (ok a) w h = inl (tt, refl)
  after_attempt_more max attempt n more (err e) w h = elim (Bool-cases (is_retryable_tx_error e)) [
    | inl p ↦ inr (p, rw p (ground arith))
    | inr p ↦ inl (inl p, rw p)
  ]

  retry_loop-Runs :
      (max n attempt : ℕ) (w : W)
      → attempt + n ≡ max
      → (k : ℕ) × Runs fn n k w (retry_loop await no_backoff fn unset max (suc n) attempt w)
  unfolding retry_loop
  retry_loop-Runs max zero attempt w h = (
    1,
    rw
        (after_attempt_last max attempt (retry_loop await no_backoff fn unset max 0 (attempt + 1))
          (fn w).0 (fn w).1 (omega arith))
        (last refl (IsFinal-zero (fn w).0)),
  )
  retry_loop-Runs max (suc n) attempt w h =
      let more = retry_loop await no_backoff fn unset max (suc n) (attempt + 1) in
      elim (after_attempt_more max attempt (suc n) more (fn w).0 (fn w).1 (omega arith)) [
        | inl (final, e) ↦ (1, rw e (last refl final))
        | inr (retry, e) ↦
            let (k, runs) = retry_loop-Runs max n (attempt + 1) (fn w).1 (omega arith) in
            (suc k, rw e (again retry runs))
      ]

  rounds :
      (n : ℕ) (w : W)
      → (k : ℕ) × Runs fn n k w (retry_loop await no_backoff fn unset (suc n) (suc n) 1 w)
        × (1 ≤ k)
        × (k ≤ suc n)
  rounds n w =
      let (k, runs) = retry_loop-Runs (suc n) n 1 w (omega arith) in
      let bounds = Runs-bounds fn runs in (k, runs, bounds.0, omega arith)

  -- withRetry with noBackoff makes at least one attempt and at most the allowed number (one, if the
  -- setting is not positive). An attempt is followed by another only after a serialization failure
  -- or a deadlock, the next one starts where the one before it stopped, and the outcome is that of
  -- the last: a success, an error of another kind, or any error of the last attempt allowed.
  pub with_retry-Runs :
      (max : ℤ) (w : W)
      → (k : ℕ) × Runs fn (allowed max - 1) k w (with_retry await no_backoff fn unset max w)
        × (1 ≤ k)
        × (k ≤ allowed max)
  unfolding with_retry
  with_retry-Runs (pos zero) w = rounds 0 w
  with_retry-Runs (negsuc n) w = rounds 0 w
  with_retry-Runs (pos (suc n)) w = rw (suc_sub_one n) (rounds n w)
