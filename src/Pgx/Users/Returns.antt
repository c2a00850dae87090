-- ===== src/Pgx/Users/Returns.antt =====
-- That what a service returns is made of its input, through retries and transactions.
use go_backend_examples.Common.{ℕ, ◌≡◌, refl, List, String}
use go_backend_examples.Action.{Action, wrapped}
use go_backend_examples.Pgx.Tx.{
  Arg, TxConfig, Driver, Context, Dbtx, tx_db, context_with_tx, context_executor,
}
use go_backend_examples.Pgx.Tx.Returns.{
  Returns, continue-Holds, wrapped-Returns, begin-Returns, do_tx-Returns, do_work-Returns,
}
use go_backend_examples.Pgx.Tx.Atomic.{Database, IsAtomic, IsTransactional}
use go_backend_examples.Pgx.Users.{
  CreateUserWithProfileInput, CreateUserWithProfileResult, application, user_of, profile_of,
  unset_result, create_user, create_profile, create_in_ctx, create_in_work, service_on,
  pgx_transactional_user_service, tx_manager_user_service, unit_of_work_user_service,
}
use go_backend_examples.Pgx.Users.Atomic.{
  creates, create_in_ctx-Changes, create_in_work-Changes, application-Changes, service-StaysIn,
  context_executor-IsOn,
}

-- The result for an input under the id `n`.
abbrev pub result_of : CreateUserWithProfileInput → ℕ → CreateUserWithProfileResult
result_of input n = record { user = user_of input n; profile = profile_of input n }

-- A result for an input, under some id.
abbrev pub IsFrom : CreateUserWithProfileInput → CreateUserWithProfileResult → Type 0
IsFrom input r = (n : ℕ) × (r ≡ result_of input n)

-- A service that creates the user and the profile of its input, or fails and leaves the database.
abbrev pub Creates :
    {W Tx S : Type 0}
    → Database W Tx S
    → (String → List Arg → S → S)
    → Context Tx
    → CreateUserWithProfileInput
    → (Context Tx → CreateUserWithProfileInput → Action W CreateUserWithProfileResult)
    → Type 0
Creates db effect ctx input service =
    IsAtomic db (creates effect) (service ctx input) × Returns (IsFrom input) (service ctx input)

module _ {W Tx S : Type 0} (d : Driver W Tx) (db : Database W Tx S)
    (effect : String → List Arg → S → S) (laws : IsTransactional d db effect) (ctx : Context Tx)
    (input : CreateUserWithProfileInput) where
  service-IsFrom : (x : Dbtx d) (c : Context Tx) → Returns (IsFrom input) (service_on d x c input)
  service-IsFrom x c w =
      let (n, w₁) = d.new_uuid w in continue-Holds (IsFrom input) _ (result_of input n) _ (n, refl)

  pub create_in_ctx-IsFrom :
      (config : TxConfig)
      → Returns (IsFrom input) (
          create_in_ctx d config
            (create_user d (context_executor d))
            (create_profile d (context_executor d))
            ctx
            input)
  create_in_ctx-IsFrom config w =
      let (n, w₁) = d.new_uuid w in continue-Holds (IsFrom input) _ (result_of input n) _ (n, refl)

  pub create_in_work-IsFrom :
      (config : TxConfig) → Returns (IsFrom input) (create_in_work d config ctx input)
  create_in_work-IsFrom config w =
      let (n, w₁) = d.new_uuid w in continue-Holds (IsFrom input) _ (result_of input n) _ (n, refl)

  pub pgx_transactional-IsFrom : Returns (IsFrom input) (pgx_transactional_user_service d ctx input)
  pgx_transactional-IsFrom = wrapped-Returns (IsFrom input) "transactional user service" _ (
      begin-Returns db (IsFrom input) (λ A. d.begin_func {A = A}) _ laws.begin_func_law
        (
          λ tx w.
              (service-StaysIn d db effect laws tx ctx (tx_db d tx) input (laws.tx_exec_law tx)
                w).0,
          λ tx.
              wrapped-Returns (IsFrom input) "create user with profile" _
                (service-IsFrom (tx_db d tx) ctx),
        ))

  pub tx_manager-IsFrom :
      (config : TxConfig)
      → Returns
          (IsFrom input)
          (tx_manager_user_service d config (service_on d (context_executor d)) ctx input)
  tx_manager-IsFrom config =
      wrapped-Returns (IsFrom input) "tx manager create user with profile" _ (
        do_tx-Returns db (IsFrom input) d effect laws config ctx unset_result
          (λ c. wrapped "create user with profile" (service_on d (context_executor d) c input))
          (
            λ tx w.
                (service-StaysIn d db effect laws tx (context_with_tx d ctx tx) (context_executor d)
                  input (context_executor-IsOn d db effect laws tx ctx) w).0,
            λ tx.
                wrapped-Returns (IsFrom input) "create user with profile" _
                  (service-IsFrom (context_executor d) (context_with_tx d ctx tx)),
          ))

  pub unit_of_work-IsFrom :
      (config : TxConfig) → Returns (IsFrom input) (unit_of_work_user_service d config ctx input)
  unit_of_work-IsFrom config =
      wrapped-Returns (IsFrom input) "unit of work create user with profile" _ (
        do_work-Returns db (IsFrom input) d effect laws config ctx unset_result (service_on d)
          (λ c service. wrapped "create user with profile" (service c input))
          (
            λ tx w.
                (service-StaysIn d db effect laws tx ctx (tx_db d tx) input (laws.tx_exec_law tx)
                  w).0,
            λ tx.
                wrapped-Returns (IsFrom input) "create user with profile" _
                  (service-IsFrom (tx_db d tx) ctx),
          ))

  -- Every approach, with pgx and the database as `IsTransactional` says, in any configuration:
  -- approach-tx-in-ctx with repositories on the context executor, approach-unit-of-work, and the
  -- application of approach-transactional-service on each of its three decorators, with the context
  -- executor under the transaction manager. CreateUserWithProfile returns an error and leaves the
  -- committed state, or it returns a user and a profile made of its input under one id, and has
  -- committed exactly their two rows, the user's first.
  pub services-Creates :
      (config : TxConfig)
      → Creates db effect ctx input (
          create_in_ctx d config
            (create_user d (context_executor d))
            (create_profile d (context_executor d)))
        × Creates db effect ctx input (create_in_work d config)
        × Creates db effect ctx input (application d (pgx_transactional_user_service d))
        × Creates db effect ctx input
            (application d (tx_manager_user_service d config (service_on d (context_executor d))))
        × Creates db effect ctx input (application d (unit_of_work_user_service d config))
  services-Creates config =
      let outer : String = "create user with profile" in
      (
        (create_in_ctx-Changes d db effect laws config ctx input, create_in_ctx-IsFrom config),
        (create_in_work-Changes d db effect laws config ctx input, create_in_work-IsFrom config),
        (
          (λ w. (application-Changes d db effect laws config ctx input w).0),
          wrapped-Returns (IsFrom input) outer _ pgx_transactional-IsFrom,
        ),
        (
          (λ w. (application-Changes d db effect laws config ctx input w).1),
          wrapped-Returns (IsFrom input) outer _ (tx_manager-IsFrom config),
        ),
        (
          (λ w. (application-Changes d db effect laws config ctx input w).2),
          wrapped-Returns (IsFrom input) outer _ (unit_of_work-IsFrom config),
        ),
      )
