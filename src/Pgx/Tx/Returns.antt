-- ===== src/Pgx/Tx/Returns.antt =====
-- What the transaction manager and the unit of work return was returned by the function that they ran.
use go_backend_examples.Common.{ℕ, ◌≡◌, List, String, Option, ℤ, subst}
use go_backend_examples.Action.{
  GoError, Result, ok, err, Action, pure, continue, wrapped, wrap_result,
}
use go_backend_examples.Pgx.Retry.{no_backoff, with_retry}
use go_backend_examples.Pgx.Retry.Runs.{Runs, last, again, with_retry-Runs}
use go_backend_examples.Pgx.Tx.{Arg, TxConfig, Driver, Context, Dbtx, tx_db, context_with_tx}
use go_backend_examples.Pgx.Tx.Manager
use go_backend_examples.Pgx.Tx.Work
use go_backend_examples.Pgx.Tx.Atomic.{Database, IsBegin, Commits, IsTransactional}

-- Every value that a call returns without an error meets `P`.
abbrev pub Holds : {W A : Type 0} → (A → Type 0) → Result A × W → Type 0
Holds P (ok a, w') = P a
Holds P (err e, w') = Unit

abbrev pub Returns : {W A : Type 0} → (A → Type 0) → Action W A → Type 0
Returns {W} P m = (w : W) → Holds P (m w)

module _ {W A : Type 0} (P : A → Type 0) where
  wrap_result-Holds :
      (s : String) (r : Result A) (w : W) → Holds P (r, w) → Holds P (wrap_result s r, w)
  wrap_result-Holds s (ok a) w h = h
  wrap_result-Holds s (err e) w h = tt

  pub wrapped-Returns : (s : String) (m : Action W A) → Returns P m → Returns P (wrapped s m)
  wrapped-Returns s m h w = wrap_result-Holds s (m w).0 (m w).1 (h w)

  pub continue-Holds :
      {B : Type 0} (r : Result B) (a : A) (w : W) → P a → Holds P (continue r (λ _. pure a) w)
  continue-Holds (ok b) a w h = h
  continue-Holds (err e) a w h = tt

  Runs-Holds :
      (fn : Action W A)
      → Returns P fn
      → {n k : ℕ} {w : W} {o : Result A × W} → Runs fn n k w o
      → Holds P o
  Runs-Holds fn h {w} (last e final) = subst (Holds P) e (h w)
  Runs-Holds fn h (again retry runs) = Runs-Holds fn h runs

  with_retry-Returns :
      (await : ℕ → W → Option GoError × W) (fn : Action W A) (unset : A) (max : ℤ)
      → Returns P fn
      → Returns P (with_retry await no_backoff fn unset max)
  with_retry-Returns await fn unset max h w =
      Runs-Holds fn h (with_retry-Runs await fn unset max w).1

module _ {W Tx S A : Type 0} (db : Database W Tx S) (P : A → Type 0) where
  -- A body that leaves the committed state, and what it returns.
  abbrev pub IsBody : (Tx → Action W A) → Type 0
  IsBody body =
      ((tx : Tx) (w : W) → db.committed (body tx w).1 ≡ db.committed w)
      × ((tx : Tx) → Returns P (body tx))

  Commits-Holds :
      (body : Tx → Action W A) (w : W) (o : Result A × W)
      → ((tx : Tx) → Returns P (body tx))
      → Commits db body w o
      → Holds P o
  Commits-Holds body w (err e, w') h c = tt
  Commits-Holds body w (ok a, w') h (tx, w₀, starts, e, ends) =
      subst (λ r. Holds P (r, (body tx w₀).1)) e (h tx w₀)

  pub begin-Returns :
      (begin : (A : Type 0) → (Tx → Action W A) → Action W A) (body : Tx → Action W A)
      → IsBegin db begin
      → IsBody body
      → Returns P (begin A body)
  begin-Returns begin body law (keeps, h) w =
      Commits-Holds body w (begin A body w) h (law A body keeps w)

  module _ (d : Driver W Tx) (effect : String → List Arg → S → S)
      (laws : IsTransactional d db effect) (config : TxConfig) (ctx : Context Tx) (unset : A) where
    -- What TxManager.Do and the unit of work return was returned by the function that they ran.
    pub do_tx-Returns :
        (fn : Context Tx → Action W A)
        → IsBody (λ tx. fn (context_with_tx d ctx tx))
        → Returns P (Manager.do_tx d config ctx fn unset)
    do_tx-Returns fn (keeps, h) = wrapped-Returns P "postgres tx attempt" _ (
        with_retry-Returns P d.await _ unset config.max_attempts (
          wrapped-Returns P "pgx tx" _ (
            begin-Returns (λ A. d.begin_tx_func {A = A} config.options) _
              (laws.begin_tx_func_law config.options)
              (keeps, λ tx. wrapped-Returns P "run tx function" _ (h tx)))))

    pub do_work-Returns :
        {T : Type 0} (new_value : Dbtx d → T) (fn : Context Tx → T → Action W A)
        → IsBody (λ tx. fn ctx (new_value (tx_db d tx)))
        → Returns P (Work.do_work d config new_value ctx fn unset)
    do_work-Returns new_value fn body = wrapped-Returns P "pgx unit of work attempt" _ (
        with_retry-Returns P d.await _ unset config.max_attempts (
          wrapped-Returns P "pgx unit of work" _ (
            begin-Returns (λ A. d.begin_tx_func {A = A} config.options) _
              (laws.begin_tx_func_law config.options) body)))
