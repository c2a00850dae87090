-- ===== src/Action.antt =====
-- Go errors, and calls that change the world and may return one.
use go_backend_examples.Common.{String}

-- An `error`: *pgconn.PgError with its code, an error of the program or of a library, and
-- fmt.Errorf("…: %w", err).
pub data GoError : Type 0 where
  pg_error : String → GoError
  invalid_order_state : GoError
  plain : String → GoError
  wrap : String → GoError → GoError

pub data Result {ℓ} (A : Type ℓ) : Type ℓ where
  ok : A → Result A
  err : GoError → Result A

-- A call that changes the world `W` and returns `(A, error)`; the `A` beside an error is not used.
abbrev pub Action {ℓ κ} : Type ℓ → Type κ → Type (ℓ ⊔ κ)
Action W A = W → Result A × W

abbrev pub wrap_result {ℓ} : {A : Type ℓ} → String → Result A → Result A
wrap_result s (ok a) = ok a
wrap_result s (err e) = err (wrap s e)

module _ {ℓ κ} {W : Type ℓ} {A : Type κ} where
  abbrev pub pure : A → Action W A
  pure a w = (ok a, w)

  abbrev pub fail : GoError → Action W A
  fail e w = (err e, w)

  -- if err != nil { return fmt.Errorf("s: %w", err) }
  abbrev pub wrapped : String → Action W A → Action W A
  wrapped s m w = let (r, w') = m w in (wrap_result s r, w')

module _ {ℓ κ μ} {W : Type ℓ} {A : Type κ} {B : Type μ} where
  abbrev pub continue : Result A → (A → Action W B) → Action W B
  continue (ok a) f w = f a w
  continue (err e) f w = (err e, w)

  infixl 1 ◌>>=◌ ◌>>◌
  abbrev pub ◌>>=◌ : Action W A → (A → Action W B) → Action W B
  ◌>>=◌ m f w = let (r, w') = m w in continue r f w'

  abbrev pub ◌>>◌ : Action W A → Action W B → Action W B
  m >> n = m >>= λ _. n

-- A call `after` that is deferred behind `m`.
abbrev pub deferred {ℓ κ} : {W : Type ℓ} {A : Type κ} → (W → W) → Action W A → Action W A
deferred after m w = let (r, w') = m w in (r, after w')
