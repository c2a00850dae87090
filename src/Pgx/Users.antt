-- ===== src/Pgx/Users.antt =====
-- Creating a user with a profile: pgx-transactions/domain, userrepo, profilerepo, and the services of
-- approach-tx-in-ctx, approach-unit-of-work and approach-transactional-service.
pub mod Atomic
pub mod Returns
use go_backend_examples.Common.{ℕ, String, List, [], ◌∷◌}
use go_backend_examples.Action.{Action, pure, wrapped, ◌>>=◌, ◌>>◌}
use go_backend_examples.Pgx.Tx.{
  Arg, id, text, texts, TxConfig, Driver, Context, Dbtx, tx_db, default_tx,
}
use go_backend_examples.Pgx.Tx.Manager
use go_backend_examples.Pgx.Tx.Work

-- A uuid.UUID is a 128-bit number.
pub record User : Type 0 where
  pub user_id : ℕ
  pub username : String
  pub password : String

pub record Profile : Type 0 where
  pub owner_id : ℕ
  pub description : String
  pub contact : String
  pub social_media_links : List String

pub record CreateUserWithProfileInput : Type 0 where
  pub username : String
  pub password : String
  pub description : String
  pub contact : String
  pub social_media_links : List String

pub record CreateUserWithProfileResult : Type 0 where
  pub user : User
  pub profile : Profile

-- The values that the services build first from the new id.
abbrev pub user_of : CreateUserWithProfileInput → ℕ → User
user_of input n = record { user_id = n; username = input.username; password = input.password }

abbrev pub profile_of : CreateUserWithProfileInput → ℕ → Profile
profile_of input n = record {
  owner_id = n;
  description = input.description;
  contact = input.contact;
  social_media_links = input.social_media_links;
}

abbrev pub unset_result : CreateUserWithProfileResult
unset_result = record {
  user = record { user_id = 0; username = ""; password = "" };
  profile = record { owner_id = 0; description = ""; contact = ""; social_media_links = [] };
}

abbrev pub insert_user : String
insert_user = "\n\t\tINSERT INTO users (id, username, password)\n\t\tVALUES ($1, $2, $3)\n\t"

abbrev pub user_args : User → List Arg
user_args user = id user.user_id ∷ text user.username ∷ text user.password ∷ []

abbrev pub insert_profile : String
insert_profile =
    "\n\t\tINSERT INTO profiles (user_id, description, contact, social_media_links)\n\t\tVALUES ($1, $2, $3, $4)\n\t"

abbrev pub profile_args : Profile → List Arg
profile_args profile =
    id profile.owner_id
    ∷ text profile.description
    ∷ text profile.contact
    ∷ texts profile.social_media_links
    ∷ []

module _ {W Tx : Type 0} (d : Driver W Tx) where
  -- domain.UserRepository and domain.ProfileRepository, of which the services use `Create`.
  abbrev pub UserRepository : Type 0
  UserRepository = Context Tx → User → Action W (Unit {0})

  abbrev pub ProfileRepository : Type 0
  ProfileRepository = Context Tx → Profile → Action W (Unit {0})

  -- The interface UserService of approach-transactional-service.
  abbrev pub UserService : Type 0
  UserService = Context Tx → CreateUserWithProfileInput → Action W CreateUserWithProfileResult

  -- userrepo: repository.Create.
  abbrev pub create_user : Dbtx d → UserRepository
  create_user db ctx user = wrapped "create user" (db ctx insert_user (user_args user))

  -- profilerepo: repository.Create.
  abbrev pub create_profile : Dbtx d → ProfileRepository
  create_profile db ctx profile =
      wrapped "create profile" (db ctx insert_profile (profile_args profile))

  -- The two calls that every service makes, in their order.
  abbrev pub create_both :
      UserRepository → ProfileRepository → Context Tx → User → Profile → Action W (Unit {0})
  create_both users profiles ctx user profile =
      wrapped "create user" (users ctx user) >> wrapped "create profile" (profiles ctx profile)

  -- approach-tx-in-ctx: UserService.CreateUserWithProfile.
  abbrev pub create_in_ctx : TxConfig → UserRepository → ProfileRepository → UserService
  create_in_ctx config users profiles ctx input w =
      let (n, w') = d.new_uuid w in
      (wrapped "create user with profile" (
            Manager.do_tx d config ctx
              (λ ctx. create_both users profiles ctx (user_of input n) (profile_of input n)) tt)
          >> pure (record { user = user_of input n; profile = profile_of input n }))
        w'

  -- approach-unit-of-work: Repositories, NewRepositories and UserService.CreateUserWithProfile.
  abbrev pub Repositories : Type 0
  Repositories = UserRepository × ProfileRepository

  abbrev pub new_repositories : Dbtx d → Repositories
  new_repositories db = (create_user db, create_profile db)

  abbrev pub create_in_work : TxConfig → UserService
  create_in_work config ctx input w =
      let (n, w') = d.new_uuid w in
      (wrapped "create user with profile" (
            Work.do_work d config new_repositories ctx
              (λ ctx repos. create_both repos.0 repos.1 ctx (user_of input n) (profile_of input n))
              tt)
          >> pure (record { user = user_of input n; profile = profile_of input n }))
        w'

  -- approach-transactional-service: userService.CreateUserWithProfile, which no transaction surrounds.
  abbrev pub user_service : UserRepository → ProfileRepository → UserService
  user_service users profiles ctx input w =
      let (n, w') = d.new_uuid w in
      (create_both users profiles ctx (user_of input n) (profile_of input n)
          >> pure (record { user = user_of input n; profile = profile_of input n }))
        w'

  abbrev pub service_on : Dbtx d → UserService
  service_on db = user_service (create_user db) (create_profile db)

  -- pgxTransactionalUserService.CreateUserWithProfile.
  abbrev pub pgx_transactional_user_service : UserService
  pgx_transactional_user_service ctx input =
      wrapped "transactional user service"
        (d.begin_func λ tx. wrapped "create user with profile" (service_on (tx_db d tx) ctx input))

  -- txManagerUserService.CreateUserWithProfile.
  abbrev pub tx_manager_user_service : TxConfig → UserService → UserService
  tx_manager_user_service config next ctx input = wrapped "tx manager create user with profile" (
      Manager.do_tx d config ctx (λ ctx. wrapped "create user with profile" (next ctx input))
        unset_result)

  -- unitOfWorkUserService.CreateUserWithProfile, on a unit of work over the service above.
  abbrev pub unit_of_work_user_service : TxConfig → UserService
  unit_of_work_user_service config ctx input = wrapped "unit of work create user with profile" (
      Work.do_work d config service_on ctx
        (λ ctx service. wrapped "create user with profile" (service ctx input)) unset_result)

  -- Application.CreateUserWithProfile.
  abbrev pub application : UserService → UserService
  application service ctx input = wrapped "create user with profile" (service ctx input)
