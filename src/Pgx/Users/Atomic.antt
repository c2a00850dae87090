-- ===== src/Pgx/Users/Atomic.antt =====
-- That a user and the profile are created together or not at all, in every approach.
use go_backend_examples.Common.{ℕ, String, ◌≡◌, ◌∙◌, List, ap}
use go_backend_examples.Action.{Result, ok, err, Action, pure, continue, wrapped, ◌>>◌}
use go_backend_examples.Pgx.Tx.{
  Arg, TxConfig, Driver, Context, Dbtx, tx_db, context_executor, context_with_tx,
}
use go_backend_examples.Pgx.Tx.Atomic.{
  Database, Changes, IsAtomic, moved, Sees, StaysIn, IsTransactional, wrapped-IsAtomic,
  wrapped-StaysIn, begin-IsAtomic, do_tx-Changes, do_work-Changes,
}
use go_backend_examples.Pgx.Users.{
  User, Profile, CreateUserWithProfileInput, CreateUserWithProfileResult, user_of, profile_of,
  unset_result, insert_user, user_args, insert_profile, profile_args, create_user, create_profile,
  create_both, create_in_ctx, create_in_work, service_on, pgx_transactional_user_service,
  tx_manager_user_service, unit_of_work_user_service, application, new_repositories,
}

-- Rows inserted for the user and then for the profile.
abbrev pub inserted : {S : Type 0} → (String → List Arg → S → S) → User → Profile → S → S
inserted effect user profile s =
    effect insert_profile (profile_args profile) (effect insert_user (user_args user) s)

abbrev pub creates :
    {S : Type 0} → (String → List Arg → S → S) → CreateUserWithProfileResult → S → S
creates effect r = inserted effect r.user r.profile

module _ {W Tx S : Type 0} (db : Database W Tx S) where
  -- Two calls one after the other.
  after :
      {B : Type 0} (f g : S → S) (tx : Tx) (w w₁ : W) (o : Result B × W)
      → db.view tx w₁ ≡ f (db.view tx w)
      → Sees db (λ _. g) tx w₁ o
      → Sees db (λ _ s. g (f s)) tx w o
  after f g tx w w₁ (ok b, w₂) seen more = more ∙ ap g seen
  after f g tx w w₁ (err e, w₂) seen more = tt

  continue-StaysIn :
      {A B : Type 0} (f g : S → S) (tx : Tx) (w w₁ : W) (r : Result A) (n : Action W B)
      → (db.committed w₁ ≡ db.committed w) × Sees db (λ _. f) tx w (r, w₁)
      → StaysIn db (λ _. g) tx n
      → (db.committed (continue r (λ _. n) w₁).1 ≡ db.committed w)
        × Sees db (λ _ s. g (f s)) tx w (continue r (λ _. n) w₁)
  continue-StaysIn f g tx w w₁ (err e) n (keeps, seen) h = (keeps, tt)
  continue-StaysIn f g tx w w₁ (ok a) n (keeps, seen) h =
      let (kept, more) = h w₁ in (kept ∙ keeps, after f g tx w w₁ (n w₁) seen more)

  >>-StaysIn :
      {A B : Type 0} (f g : S → S) (tx : Tx) (m : Action W A) (n : Action W B)
      → StaysIn db (λ _. f) tx m
      → StaysIn db (λ _. g) tx n
      → StaysIn db (λ _ s. g (f s)) tx (m >> n)
  >>-StaysIn f g tx m n h k w = continue-StaysIn f g tx w (m w).1 (m w).0 n (h w) k

  continue-pure :
      {A B : Type 0} (change : B → S → S) (b : B) (w w₁ : W) (r : Result A)
      → Changes db (λ _. change b) w (r, w₁)
      → Changes db change w (continue r (λ _. pure b) w₁)
  continue-pure change b w w₁ (ok a) h = h
  continue-pure change b w w₁ (err e) h = h

  continue-pure-Sees :
      {A B : Type 0} (change : B → S → S) (b : B) (tx : Tx) (w w₁ : W) (r : Result A)
      → (db.committed w₁ ≡ db.committed w) × Sees db (λ _. change b) tx w (r, w₁)
      → (db.committed (continue r (λ _. pure b) w₁).1 ≡ db.committed w)
        × Sees db change tx w (continue r (λ _. pure b) w₁)
  continue-pure-Sees change b tx w w₁ (ok a) h = h
  continue-pure-Sees change b tx w w₁ (err e) h = h

  seen_before :
      {B : Type 0} (change : B → S → S) (tx : Tx) (w w₁ : W) (o : Result B × W)
      → db.view tx w₁ ≡ db.view tx w
      → Sees db change tx w₁ o
      → Sees db change tx w o
  seen_before change tx w w₁ (ok b, w₂) e h = h ∙ ap (change b) e
  seen_before change tx w w₁ (err x, w₂) e h = tt

module _ {W Tx S : Type 0} (d : Driver W Tx) (db : Database W Tx S)
    (effect : String → List Arg → S → S) (laws : IsTransactional d db effect) where
  -- A DBTX that runs its statements on the transaction `tx`.
  abbrev pub IsOn : Tx → Context Tx → Dbtx d → Type 0
  IsOn tx ctx x =
      (sql : String) (args : List Arg) → StaysIn db (λ _. effect sql args) tx (x ctx sql args)

  create_both-StaysIn :
      (tx : Tx) (ctx : Context Tx) (x : Dbtx d) (user : User) (profile : Profile)
      → IsOn tx ctx x
      → StaysIn db
          (λ _. inserted effect user profile)
          tx
          (create_both d (create_user d x) (create_profile d x) ctx user profile)
  create_both-StaysIn tx ctx x user profile h =
      let first = effect insert_user (user_args user) in
      let second = effect insert_profile (profile_args profile) in
      >>-StaysIn db first second tx _ _
        (wrapped-StaysIn db (λ _. first) "create user" tx _
          (wrapped-StaysIn db (λ _. first) "create user" tx _ (h insert_user (user_args user))))
        (wrapped-StaysIn db (λ _. second) "create profile" tx _
          (wrapped-StaysIn db (λ _. second) "create profile" tx _
            (h insert_profile (profile_args profile))))

  pub context_executor-IsOn :
      (tx : Tx) (ctx : Context Tx) → IsOn tx (context_with_tx d ctx tx) (context_executor d)
  context_executor-IsOn tx ctx sql args =
      wrapped-StaysIn db (λ _. effect sql args) "exec postgres context executor" tx _
        (laws.tx_exec_law tx sql args)

  pub service-StaysIn :
      (tx : Tx) (ctx : Context Tx) (x : Dbtx d) (input : CreateUserWithProfileInput)
      → IsOn tx ctx x
      → StaysIn db (creates effect) tx (service_on d x ctx input)
  service-StaysIn tx ctx x input h w =
      let (n, w₁) = d.new_uuid w in
      let (kept, same) = laws.new_uuid_law w in
      let (r, w₂) =
        create_both d (create_user d x) (create_profile d x) ctx (user_of input n)
          (profile_of input n) w₁ in
      let (still, seen) =
        continue-pure-Sees db (creates effect)
          (record { user = user_of input n; profile = profile_of input n }) tx w₁ w₂ r
          (create_both-StaysIn tx ctx x (user_of input n) (profile_of input n) h w₁) in
      (still ∙ kept, seen_before db (creates effect) tx w w₁ _ (same tx) seen)

  -- A service that runs `m` on a new id and returns the values that it has built.
  with_id-IsAtomic :
      (m : ℕ → Action W (Unit {0})) (input : CreateUserWithProfileInput)
      → ((n : ℕ) → IsAtomic db (λ _. inserted effect (user_of input n) (profile_of input n)) (m n))
      → IsAtomic db (creates effect) λ w.
        let (n, w') = d.new_uuid w in
        (m n >> pure (record { user = user_of input n; profile = profile_of input n })) w'
  with_id-IsAtomic m input h w =
      let (n, w₁) = d.new_uuid w in
      let (r, w₂) = m n w₁ in
      moved db (creates effect) w w₁ _ (laws.new_uuid_law w).0 (
        continue-pure db (creates effect)
          (record { user = user_of input n; profile = profile_of input n }) w₁ w₂ r (h n w₁))

  -- approach-tx-in-ctx, with repositories on the context executor, and pgx and the database as
  -- `IsTransactional` says: CreateUserWithProfile returns an
  -- error and leaves the committed state of the database, or returns the user and the profile and has
  -- committed exactly their two rows, the user's first.
  pub create_in_ctx-Changes :
      (config : TxConfig) (ctx : Context Tx) (input : CreateUserWithProfileInput)
      → (w : W)
      → Changes db (creates effect) w (
          create_in_ctx d config
            (create_user d (context_executor d))
            (create_profile d (context_executor d))
            ctx
            input
            w)
  create_in_ctx-Changes config ctx input = with_id-IsAtomic _ input λ n.
      let change = λ (_ : Unit {0}). inserted effect (user_of input n) (profile_of input n) in
      wrapped-IsAtomic db change "create user with profile" _ (
        do_tx-Changes d db effect laws config change ctx tt
          (λ ctx.
            create_both d (create_user d (context_executor d))
              (create_profile d (context_executor d)) ctx (user_of input n) (profile_of input n))
          λ tx.
            create_both-StaysIn tx (context_with_tx d ctx tx) (context_executor d) (user_of input n)
              (profile_of input n) (context_executor-IsOn tx ctx))

  -- approach-unit-of-work, with pgx and the database as `IsTransactional` says: CreateUserWithProfile
  -- returns an
  -- error and leaves the committed state of the database, or returns the user and the profile and has
  -- committed exactly their two rows, the user's first.
  pub create_in_work-Changes :
      (config : TxConfig) (ctx : Context Tx) (input : CreateUserWithProfileInput)
      → (w : W) → Changes db (creates effect) w (create_in_work d config ctx input w)
  create_in_work-Changes config ctx input = with_id-IsAtomic _ input λ n.
      let change = λ (_ : Unit {0}). inserted effect (user_of input n) (profile_of input n) in
      wrapped-IsAtomic db change "create user with profile" _ (
        do_work-Changes d db effect laws config change ctx tt (new_repositories d)
          (λ ctx repos. create_both d repos.0 repos.1 ctx (user_of input n) (profile_of input n))
          λ tx.
            create_both-StaysIn tx ctx (tx_db d tx) (user_of input n) (profile_of input n)
              (laws.tx_exec_law tx))

  -- The service in each of its transactional decorators.
  pgx_transactional-IsAtomic :
      (ctx : Context Tx) (input : CreateUserWithProfileInput)
      → IsAtomic db (creates effect) (pgx_transactional_user_service d ctx input)
  pgx_transactional-IsAtomic ctx input =
      wrapped-IsAtomic db (creates effect) "transactional user service" _ (
        begin-IsAtomic db (λ A. d.begin_func {A = A}) (creates effect) _ laws.begin_func_law
          λ tx.
            wrapped-StaysIn db (creates effect) "create user with profile" tx _
              (service-StaysIn tx ctx (tx_db d tx) input (laws.tx_exec_law tx)))

  pub tx_manager-IsAtomic :
      (config : TxConfig) (ctx : Context Tx) (input : CreateUserWithProfileInput)
      → IsAtomic db
          (creates effect)
          (tx_manager_user_service d config (service_on d (context_executor d)) ctx input)
  tx_manager-IsAtomic config ctx input =
      wrapped-IsAtomic db (creates effect) "tx manager create user with profile" _ (
        do_tx-Changes d db effect laws config (creates effect) ctx unset_result
          (λ ctx. wrapped "create user with profile" (service_on d (context_executor d) ctx input))
          λ tx. wrapped-StaysIn db (creates effect) "create user with profile" tx _ (
            service-StaysIn tx (context_with_tx d ctx tx) (context_executor d) input
              (context_executor-IsOn tx ctx)))

  pub unit_of_work-IsAtomic :
      (config : TxConfig) (ctx : Context Tx) (input : CreateUserWithProfileInput)
      → IsAtomic db (creates effect) (unit_of_work_user_service d config ctx input)
  unit_of_work-IsAtomic config ctx input =
      wrapped-IsAtomic db (creates effect) "unit of work create user with profile" _ (
        do_work-Changes d db effect laws config (creates effect) ctx unset_result (service_on d)
          (λ ctx service. wrapped "create user with profile" (service ctx input))
          λ tx.
            wrapped-StaysIn db (creates effect) "create user with profile" tx _
              (service-StaysIn tx ctx (tx_db d tx) input (laws.tx_exec_law tx)))

  -- approach-transactional-service, with pgx and the database as `IsTransactional` says: the
  -- application on the service in each of the three transactional decorators, with the context
  -- executor under the transaction manager, returns an
  -- error and leaves the committed state of the database, or returns the user and the profile and has
  -- committed exactly their two rows, the user's first.
  pub application-Changes :
      (config : TxConfig) (ctx : Context Tx) (input : CreateUserWithProfileInput)
      → (w : W)
      → Changes db (creates effect) w (application d (pgx_transactional_user_service d) ctx input w)
        × Changes db (creates effect) w (
            application d
              (tx_manager_user_service d config (service_on d (context_executor d)))
              ctx
              input
              w)
        × Changes db
            (creates effect)
            w
            (application d (unit_of_work_user_service d config) ctx input w)
  application-Changes config ctx input w = (
    wrapped-IsAtomic db (creates effect) "create user with profile" _
        (pgx_transactional-IsAtomic ctx input) w,
    wrapped-IsAtomic db (creates effect) "create user with profile" _
        (tx_manager-IsAtomic config ctx input) w,
    wrapped-IsAtomic db (creates effect) "create user with profile" _
        (unit_of_work-IsAtomic config ctx input) w,
  )
