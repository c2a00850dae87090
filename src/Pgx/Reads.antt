-- ===== src/Pgx/Reads.antt =====
-- Reading what is stored: Query and QueryRow of pgx-transactions/postgres/context_executor.go, GetByID
-- of userrepo/repository.go and GetByUserID of profilerepo/repository.go.
pub mod Visible
pub mod Found
use go_backend_examples.Common.{ℕ, String, List, [], ◌∷◌, Option, none, some}
use go_backend_examples.Action.{Action, pure, wrapped, ◌>>=◌}
use go_backend_examples.Pgx.Tx.{Arg, id, Context}
use go_backend_examples.Pgx.Users.{User, Profile}

pub record DbUser : Type 0 where
  pub id : ℕ
  pub username : String
  pub password : String

pub record DbProfile : Type 0 where
  pub user_id : ℕ
  pub description : String
  pub contact : String
  pub social_media_links : List String

-- The methods ToDomain.
abbrev pub user_to_domain : DbUser → User
user_to_domain u = record { user_id = u.id; username = u.username; password = u.password }

abbrev pub profile_to_domain : DbProfile → Profile
profile_to_domain p = record {
  owner_id = p.user_id;
  description = p.description;
  contact = p.contact;
  social_media_links = p.social_media_links;
}

abbrev pub select_user : String
select_user = "\n\t\tSELECT id, username, password\n\t\tFROM users\n\t\tWHERE id = $1\n\t"

abbrev pub select_profile : String
select_profile =
    "\n\t\tSELECT user_id, description, contact, social_media_links\n\t\tFROM profiles\n\t\tWHERE user_id = $1\n\t"

-- What pgx does for a read: Query and QueryRow on a pool and on a transaction, and
-- pgx.CollectExactlyOneRow with pgx.RowToStructByName at both row types.
pub record Queries (W Tx Rows Row : Type 0) : Type 0 where
  pub pool_query : String → List Arg → Action W Rows
  pub tx_query : Tx → String → List Arg → Action W Rows
  pub pool_query_row : String → List Arg → W → Row × W
  pub tx_query_row : Tx → String → List Arg → W → Row × W
  pub collect_user : Rows → Action W DbUser
  pub collect_profile : Rows → Action W DbProfile

module _ {W Tx Rows Row : Type 0} (q : Queries W Tx Rows Row) where
  -- The methods Query and QueryRow of a DBTX.
  abbrev pub Querier : Type 0
  Querier = Context Tx → String → List Arg → Action W Rows

  abbrev pub RowQuerier : Type 0
  RowQuerier = Context Tx → String → List Arg → W → Row × W

  -- The methods of the executor that ExecutorFromContext chooses.
  abbrev pub query_of : Option Tx → String → List Arg → Action W Rows
  query_of none = q.pool_query
  query_of (some tx) = q.tx_query tx

  abbrev pub query_row_of : Option Tx → String → List Arg → W → Row × W
  query_row_of none = q.pool_query_row
  query_row_of (some tx) = q.tx_query_row tx

  -- contextExecutor.Query and contextExecutor.QueryRow.
  abbrev pub context_query : Querier
  context_query ctx sql args = wrapped "query postgres context executor" (query_of ctx.tx sql args)

  abbrev pub context_query_row : RowQuerier
  context_query_row ctx = query_row_of ctx.tx

  -- userrepo: repository.GetByID.
  abbrev pub get_by_id : Querier → Context Tx → ℕ → Action W User
  get_by_id query ctx n =
      wrapped "query user by id" (query ctx select_user (id n ∷ []))
      >>= (λ rows. wrapped "collect user by id" (q.collect_user rows))
      >>= λ user. pure (user_to_domain user)

  -- profilerepo: repository.GetByUserID.
  abbrev pub get_by_user_id : Querier → Context Tx → ℕ → Action W Profile
  get_by_user_id query ctx n =
      wrapped "query profile by user id" (query ctx select_profile (id n ∷ []))
      >>= (λ rows. wrapped "collect profile by user id" (q.collect_profile rows))
      >>= λ profile. pure (profile_to_domain profile)
