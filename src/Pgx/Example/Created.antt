-- ===== src/Pgx/Example/Created.antt =====
-- What the example has created when it ends, and what it closes.
use mathlib.Core.List.{◌++◌}
use go_backend_examples.Common.{ℕ, String, ◌≡◌, refl, ◌∙◌, List, [], ◌∷◌, ap, sym, subst}
use go_backend_examples.Action.{Result, ok, err, Action, pure, continue, wrap_result, ◌>>◌}
use go_backend_examples.Pgx.Tx.{Arg, Driver, Context, context_executor, default_tx, serializable_tx}
use go_backend_examples.Pgx.Tx.Atomic.{Database, Changes, IsTransactional}
use go_backend_examples.Pgx.Users.{
  CreateUserWithProfileInput, CreateUserWithProfileResult, UserService, create_user, create_profile,
  create_in_ctx, create_in_work, application, pgx_transactional_user_service,
  tx_manager_user_service, unit_of_work_user_service, service_on,
}
use go_backend_examples.Pgx.Users.Atomic.{
  creates, create_in_ctx-Changes, create_in_work-Changes, application-Changes, tx_manager-IsAtomic,
  unit_of_work-IsAtomic,
}
use go_backend_examples.Pgx.Tx.Returns.{Holds, wrapped-Returns}
use go_backend_examples.Pgx.Users.Returns.{
  Creates, IsFrom, result_of, create_in_ctx-IsFrom, create_in_work-IsFrom, pgx_transactional-IsFrom,
  tx_manager-IsFrom, unit_of_work-IsFrom,
}
use go_backend_examples.Pgx.Example.{
  Infra, created_and_logged, in_ctx_input, in_work_input, transactional_input, tx_manager_input,
  work_service_input, create_all, create_first, create_second, create_third, create_fourth,
  create_fifth,
}

-- The inputs of the five parts.
abbrev pub all_inputs : List CreateUserWithProfileInput
all_inputs =
    in_ctx_input ∷ in_work_input ∷ transactional_input ∷ tx_manager_input ∷ work_service_input ∷ []

module _ {S : Type 0} (effect : String → List Arg → S → S) where
  -- `Created is s t`: the state `t` is `s` with the rows of the users and profiles of the inputs `is`,
  -- each under some id, inserted in their order.
  pub data Created : List CreateUserWithProfileInput → S → S → Type 0 where
    nothing : {s : S} → Created [] s s
    create :
        {i : CreateUserWithProfileInput} {is : List CreateUserWithProfileInput} {n : ℕ} {s t : S}
        → Created is (creates effect (result_of i n) s) t
        → Created (i ∷ is) s t

module _ {W Tx S : Type 0} (db : Database W Tx S) (effect : String → List Arg → S → S) where
  -- A success has created all of the inputs, and an error a part of them that lacks at least one.
  abbrev pub Ends : List CreateUserWithProfileInput → S → Result (Unit {0}) × W → Type 0
  Ends is s (ok u, w') = Created effect is s (db.committed w')
  Ends is s (err e, w') =
      (made : List CreateUserWithProfileInput) × (i : CreateUserWithProfileInput) × (left : List
        CreateUserWithProfileInput)
      × (is ≡ made ++ (i ∷ left))
      × Created effect made s (db.committed w')

  more :
      (i : CreateUserWithProfileInput) (is : List CreateUserWithProfileInput) (n : ℕ) (s : S)
      (o : Result (Unit {0}) × W)
      → Ends is (creates effect (result_of i n) s) o
      → Ends (i ∷ is) s o
  more i is n s (ok u, w') h = create {n = n} h
  more i is n s (err e, w') (made, j, left, e₁, h) =
      (i ∷ made, j, left, ap (λ l. i ∷ l) e₁, create {n = n} h)

module _ {W Tx S : Type 0} (d : Driver W Tx) (db : Database W Tx S)
    (effect : String → List Arg → S → S) (laws : IsTransactional d db effect) where
  module _ {Container Config Pool : Type 0} (env : Infra W Tx Container Config Pool)
      (quiet : (s : String) (n : ℕ) (w : W) → db.committed (env.info s n w) ≡ db.committed w) where
    step-Ends :
        (ctx : Context Tx) (failing done : String) (i : CreateUserWithProfileInput)
        (is : List CreateUserWithProfileInput) (rest : Action W (Unit {0})) (w w₁ : W)
        (r : Result CreateUserWithProfileResult)
        → Changes db (creates effect) w (r, w₁)
        → Holds (IsFrom i) (r, w₁)
        → ((w : W) → Ends db effect is (db.committed w) (rest w))
        → Ends db effect (i ∷ is) (db.committed w) (
            let (r', w') =
              continue {B = Unit {0}}
                (wrap_result failing r)
                (λ r w. (ok tt, env.info done r.user.user_id w))
                w₁ in
            continue {B = Unit {0}} r' (λ _. rest) w')
    step-Ends ctx failing done i is rest w w₁ (err e) h from more_of =
        ([], i, is, refl, subst (Created effect [] (db.committed w)) (sym h) nothing)
    step-Ends ctx failing done i is rest w w₁ (ok r) h (n, from) more_of =
        let w₂ : W = env.info done r.user.user_id w₁ in
        more db effect i is n (db.committed w) (rest w₂) (
          subst (λ s. Ends db effect is s (rest w₂))
            (quiet done r.user.user_id w₁ ∙ h ∙ ap (λ r. creates effect r (db.committed w)) from)
            (more_of w₂))

    -- A part that creates its input, whatever the parts behind it do.
    abbrev Adds : CreateUserWithProfileInput → Action W (Unit {0}) → Type 0
    Adds i m =
        (is : List CreateUserWithProfileInput) (rest : Action W (Unit {0}))
        → ((w : W) → Ends db effect is (db.committed w) (rest w))
        → (w : W) → Ends db effect (i ∷ is) (db.committed w) ((m >> rest) w)

    part-Adds :
        (ctx : Context Tx) (failing done : String) (i : CreateUserWithProfileInput)
        (service : UserService d)
        → Creates db effect ctx i service
        → Adds i (created_and_logged env d ctx failing done service i)
    part-Adds ctx failing done i service (atomic, from) is rest h w =
        step-Ends ctx failing done i is rest w (service ctx i w).1 (service ctx i w).0 (atomic w)
          (from w) h

    create_first-Adds : (ctx : Context Tx) → Adds in_ctx_input (create_first env d ctx)
    create_first-Adds ctx =
        part-Adds ctx "approach-tx-in-ctx create user with profile"
          "approach-tx-in-ctx created user and profile" in_ctx_input
          (create_in_ctx d default_tx (create_user d (context_executor d))
            (create_profile d (context_executor d)))
          (
            create_in_ctx-Changes d db effect laws default_tx ctx in_ctx_input,
            create_in_ctx-IsFrom d db effect laws ctx in_ctx_input default_tx,
          )

    create_second-Adds : (ctx : Context Tx) → Adds in_work_input (create_second env d ctx)
    create_second-Adds ctx =
        part-Adds ctx "approach-unit-of-work create user with profile"
          "approach-unit-of-work created user and profile" in_work_input
          (create_in_work d default_tx)
          (
            create_in_work-Changes d db effect laws default_tx ctx in_work_input,
            create_in_work-IsFrom d db effect laws ctx in_work_input default_tx,
          )

    create_third-Adds : (ctx : Context Tx) → Adds transactional_input (create_third env d ctx)
    create_third-Adds ctx =
        part-Adds ctx "approach-transactional-service create user with profile"
          "approach-transactional-service created user and profile" transactional_input
          (application d (pgx_transactional_user_service d))
          (
            λ w. (application-Changes d db effect laws default_tx ctx transactional_input w).0,
            wrapped-Returns (IsFrom transactional_input) "create user with profile" _
                (pgx_transactional-IsFrom d db effect laws ctx transactional_input),
          )

    create_fourth-Adds : (ctx : Context Tx) → Adds tx_manager_input (create_fourth env d ctx)
    create_fourth-Adds ctx =
        part-Adds ctx "approach-tx-manager create user with profile"
          "approach-tx-manager created user and profile" tx_manager_input
          (tx_manager_user_service d serializable_tx (service_on d (context_executor d)))
          (
            tx_manager-IsAtomic d db effect laws serializable_tx ctx tx_manager_input,
            tx_manager-IsFrom d db effect laws ctx tx_manager_input serializable_tx,
          )

    create_fifth-Adds : (ctx : Context Tx) → Adds work_service_input (create_fifth env d ctx)
    create_fifth-Adds ctx =
        part-Adds ctx "approach-unit-of-work-service create user with profile"
          "approach-unit-of-work-service created user and profile" work_service_input
          (unit_of_work_user_service d default_tx)
          (
            unit_of_work-IsAtomic d db effect laws default_tx ctx work_service_input,
            unit_of_work-IsFrom d db effect laws ctx work_service_input default_tx,
          )

    pub create_all-Ends :
        (ctx : Context Tx) (w : W)
        → Ends db effect all_inputs (db.committed w) (create_all env d ctx w)
    create_all-Ends ctx =
        let fifth = create_fifth env d ctx >> pure tt in
        let fourth = create_fourth env d ctx >> fifth in
        let third = create_third env d ctx >> fourth in
        create_first-Adds ctx _ (create_second env d ctx >> third) (
          create_second-Adds ctx _ third (
            create_third-Adds ctx _ fourth
              (create_fourth-Adds ctx _ fifth (create_fifth-Adds ctx [] (pure tt) (λ w. nothing)))))
