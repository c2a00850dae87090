-- ===== src/Pgx/Tx/Atomic.antt =====
-- What a transaction promises, and that the transaction manager and the unit of work keep it through
-- their retries.
use go_backend_examples.Common.{ℕ, String, ◌≡◌, ◌∙◌, List, Option, ℤ, ap, subst}
use go_backend_examples.Action.{GoError, Result, ok, err, Action, wrap_result, wrapped}
use go_backend_examples.Pgx.Retry.{no_backoff, with_retry}
use go_backend_examples.Pgx.Retry.Runs.{Runs, last, again, IsRetryable, with_retry-Runs}
use go_backend_examples.Pgx.Tx.{
  IsoLevel, Arg, TxConfig, Driver, Context, Dbtx, tx_db, context_with_tx,
}
use go_backend_examples.Pgx.Tx.Manager
use go_backend_examples.Pgx.Tx.Work

-- The committed state of the database, and the state that an open transaction sees.
pub record Database (W Tx S : Type 0) : Type 0 where
  pub committed : W → S
  pub view : Tx → W → S

module _ {W Tx S : Type 0} (db : Database W Tx S) where
  -- How the committed state after a call relates to the one before it: an error leaves it, and a
  -- success with `a` changes it by `change a`.
  abbrev pub Changes : {A : Type 0} → (A → S → S) → W → Result A × W → Type 0
  Changes change w (ok a, w') = db.committed w' ≡ change a (db.committed w)
  Changes change w (err e, w') = db.committed w' ≡ db.committed w

  abbrev pub IsAtomic : {A : Type 0} → (A → S → S) → Action W A → Type 0
  IsAtomic change m = (w : W) → Changes change w (m w)

  -- What a call inside of a transaction does to the state that the transaction sees: an error promises
  -- nothing of it.
  abbrev pub Sees : {A : Type 0} → (A → S → S) → Tx → W → Result A × W → Type 0
  Sees change tx w (ok a, w') = db.view tx w' ≡ change a (db.view tx w)
  Sees change tx w (err e, w') = Unit

  -- A call that stays inside of the transaction `tx`.
  abbrev pub StaysIn : {A : Type 0} → (A → S → S) → Tx → Action W A → Type 0
  StaysIn change tx m = (w : W) → (db.committed (m w).1 ≡ db.committed w) × Sees change tx w (m w)

  -- pgx.BeginTxFunc and pgx.BeginFunc with a body that stays inside of the transaction: an error, of
  -- the body or of the transaction's own statements, leaves the committed state; after a success the
  -- body has succeeded on a transaction that started from the committed state, and what the
  -- transaction saw at the end is committed.
  abbrev pub Commits : {A : Type 0} → (Tx → Action W A) → W → Result A × W → Type 0
  Commits body w (ok a, w') =
      (tx : Tx) × (w₀ : W) × (db.view tx w₀ ≡ db.committed w)
      × ((body tx w₀).0 ≡ ok a)
      × (db.committed w' ≡ db.view tx (body tx w₀).1)
  Commits body w (err e, w') = db.committed w' ≡ db.committed w

  abbrev pub IsBegin : ((A : Type 0) → (Tx → Action W A) → Action W A) → Type 1
  IsBegin begin =
      (A : Type 0) (body : Tx → Action W A)
      → ((tx : Tx) (w : W) → db.committed (body tx w).1 ≡ db.committed w)
      → (w : W) → Commits body w (begin A body w)

  begin-Changes :
      {A : Type 0} (change : A → S → S) (body : Tx → Action W A)
      → ((tx : Tx) → StaysIn change tx (body tx))
      → (w : W) (o : Result A × W) → Commits body w o
      → Changes change w o
  begin-Changes change body h w (err e, w') c = c
  begin-Changes change body h w (ok a, w') (tx, w₀, starts, e, ends) =
      let (r, w₁) = body tx w₀ in
      let seen : Sees change tx w₀ (ok a, (body tx w₀).1) =
        subst (λ r. Sees change tx w₀ (r, (body tx w₀).1)) e (h tx w₀).1 in
      ends ∙ seen ∙ ap (change a) starts

  pub begin-IsAtomic :
      {A : Type 0} (begin : (A : Type 0) → (Tx → Action W A) → Action W A) (change : A → S → S)
      (body : Tx → Action W A)
      → IsBegin begin
      → ((tx : Tx) → StaysIn change tx (body tx))
      → IsAtomic change (begin A body)
  begin-IsAtomic {A} begin change body law h w =
      begin-Changes change body h w (begin A body w) (law A body (λ tx w. (h tx w).0) w)

  wrap_result-Changes :
      {A : Type 0} (change : A → S → S) (s : String) (w : W) (r : Result A) (w' : W)
      → Changes change w (r, w')
      → Changes change w (wrap_result s r, w')
  wrap_result-Changes change s w (ok a) w' h = h
  wrap_result-Changes change s w (err e) w' h = h

  pub wrapped-IsAtomic :
      {A : Type 0} (change : A → S → S) (s : String) (m : Action W A)
      → IsAtomic change m
      → IsAtomic change (wrapped s m)
  wrapped-IsAtomic change s m h w = wrap_result-Changes change s w (m w).0 (m w).1 (h w)

  wrap_result-Sees :
      {A : Type 0} (change : A → S → S) (s : String) (tx : Tx) (w : W) (r : Result A) (w' : W)
      → Sees change tx w (r, w')
      → Sees change tx w (wrap_result s r, w')
  wrap_result-Sees change s tx w (ok a) w' h = h
  wrap_result-Sees change s tx w (err e) w' h = tt

  pub wrapped-StaysIn :
      {A : Type 0} (change : A → S → S) (s : String) (tx : Tx) (m : Action W A)
      → StaysIn change tx m
      → StaysIn change tx (wrapped s m)
  wrapped-StaysIn change s tx m h w =
      ((h w).0, wrap_result-Sees change s tx w (m w).0 (m w).1 (h w).1)

  -- An attempt that is made again has left the committed state.
  retried :
      {A : Type 0} (change : A → S → S) (w : W) (o : Result A × W)
      → IsRetryable o.0
      → Changes change w o
      → db.committed o.1 ≡ db.committed w
  retried change w (ok a, w') h c = elim h [ ]
  retried change w (err e, w') h c = c

  pub moved :
      {A : Type 0} (change : A → S → S) (w w₁ : W) (o : Result A × W)
      → db.committed w₁ ≡ db.committed w
      → Changes change w₁ o
      → Changes change w o
  moved change w w₁ (ok a, w') h c = c ∙ ap (change a) h
  moved change w w₁ (err e, w') h c = c ∙ h

  Runs-Changes :
      {A : Type 0} (change : A → S → S) (fn : Action W A)
      → IsAtomic change fn
      → {n k : ℕ} {w : W} {o : Result A × W} → Runs fn n k w o
      → Changes change w o
  Runs-Changes change fn h {w} (last e final) = subst (Changes change w) e (h w)
  Runs-Changes change fn h {w} {o} (again retry runs) =
      moved change w (fn w).1 o (retried change w (fn w) retry (h w))
        (Runs-Changes change fn h runs)

  pub with_retry-IsAtomic :
      {A : Type 0} (change : A → S → S) (await : ℕ → W → Option GoError × W) (fn : Action W A)
      (unset : A) (max : ℤ)
      → IsAtomic change fn
      → IsAtomic change (with_retry await no_backoff fn unset max)
  with_retry-IsAtomic change await fn unset max h w =
      Runs-Changes change fn h (with_retry-Runs await fn unset max w).1

-- What the program relies on: a statement of a transaction stays in it and has the effect `effect`
-- there if it succeeds, both ways of beginning a transaction are as described, and uuid.New touches
-- no database.
pub record IsTransactional {W Tx S : Type 0} (d : Driver W Tx) (db : Database W Tx S)
    (effect : String → List Arg → S → S) : Type 1 where
  pub tx_exec_law :
      (tx : Tx) (sql : String) (args : List Arg)
      → StaysIn db (λ u. effect sql args) tx (d.tx_exec tx sql args)
  pub begin_tx_func_law : (level : IsoLevel) → IsBegin db (λ A. d.begin_tx_func {A = A} level)
  pub begin_func_law : IsBegin db (λ A. d.begin_func {A = A})
  pub new_uuid_law :
      (w : W)
      → (db.committed (d.new_uuid w).1 ≡ db.committed w)
        × ((tx : Tx) → db.view tx (d.new_uuid w).1 ≡ db.view tx w)

module _ {W Tx S A : Type 0} (d : Driver W Tx) (db : Database W Tx S)
    (effect : String → List Arg → S → S) (laws : IsTransactional d db effect) (config : TxConfig)
    (change : A → S → S) (ctx : Context Tx) (unset : A) where
  -- TxManager.Do is all or nothing, if pgx and the database are as `IsTransactional` says: if the function that it runs stays inside of the transaction of
  -- the context that it is given, then an error leaves the committed state of the database, and a
  -- success commits the function's change exactly once, however many attempts it took.
  pub do_tx-Changes :
      (fn : Context Tx → Action W A)
      → ((tx : Tx) → StaysIn db change tx (fn (context_with_tx d ctx tx)))
      → (w : W) → Changes db change w (Manager.do_tx d config ctx fn unset w)
  do_tx-Changes fn h = wrapped-IsAtomic db change "postgres tx attempt" _ (
      with_retry-IsAtomic db change d.await _ unset config.max_attempts (
        wrapped-IsAtomic db change "pgx tx" _ (
          begin-IsAtomic db (λ A. d.begin_tx_func {A = A} config.options) change _
            (laws.begin_tx_func_law config.options)
            λ tx. wrapped-StaysIn db change "run tx function" tx _ (h tx))))

  -- The unit of work is all or nothing, if pgx and the database are as `IsTransactional` says: an
  -- error leaves the committed state, and a success commits the change exactly once, if the function stays inside of the
  -- transaction with the value that is built on that transaction.
  pub do_work-Changes :
      {T : Type 0} (new_value : Dbtx d → T) (fn : Context Tx → T → Action W A)
      → ((tx : Tx) → StaysIn db change tx (fn ctx (new_value (tx_db d tx))))
      → (w : W) → Changes db change w (Work.do_work d config new_value ctx fn unset w)
  do_work-Changes new_value fn h = wrapped-IsAtomic db change "pgx unit of work attempt" _ (
      with_retry-IsAtomic db change d.await _ unset config.max_attempts (
        wrapped-IsAtomic db change "pgx unit of work" _ (
          begin-IsAtomic db (λ A. d.begin_tx_func {A = A} config.options) change _
            (laws.begin_tx_func_law config.options) h)))
