-- ===== src/Log/Users.antt =====
-- Creating a user, logged: logging/userrepo, logging/userservice and logging/userhandler.
pub mod Rules
pub mod Kept
pub mod Outcome
pub mod Status
pub mod Line
pub mod Worlds
pub mod Created
pub mod Private
use go_backend_examples.Common.{
  ℕ, ◌-◌, ℤ, pos, String, Bool, true, false, ◌||◌, if◌then◌else◌, Option, none, some, List, [], ◌∷◌,
  ◌++◌, Bytes, codes,
}
use go_backend_examples.HttpLog.{new_writer}
use go_backend_examples.Log.Value.{
  Value, text, failure, int, duration, group, log_valuer, Attrs, no_attrs, attr,
}
use go_backend_examples.Log.Bag.{Bag, new_bag, attrs}
use go_backend_examples.Log.Multiline.{MultilineTextHandler, is_empty}
use go_backend_examples.Log.Tracer.{QueryError, Opts, text_attr}
use go_backend_examples.Log.World.{
  QueryEnd, Env, World, M, pure, ◌>>=◌, ◌>>◌, outside, on_bag, set, log, info, component, traced,
  respond,
}

pub record User : Type 0 where
  pub user_id : Bytes
  pub username : Bytes

-- userservice.CreateUserCommand, and userhandler.createUserRequest.
pub record CreateUserCommand : Type 0 where
  pub username : Bytes
  pub password : Bytes

-- The errors that go up: of a query, of the decoder, of the response, and wrapped ones.
pub data Failure : Type 0 where
  query_failure : QueryError → Failure
  other_failure : Bytes → Failure
  wrapped_failure : Bytes → Failure → Failure

-- The method Error.
abbrev pub error_text : Failure → Bytes
error_text (query_failure e) = e.message
error_text (other_failure s) = s
error_text (wrapped_failure s e) = s ++ (codes ": " ++ error_text e)

pub data Try (A : Type 0) : Type 0 where
  done : A → Try A
  failed : Failure → Try A

-- CreateUserCommand and createUserRequest as slog sees them: a struct, and what its LogValue returns.
abbrev pub struct_fields : CreateUserCommand → Attrs
struct_fields c =
    attr (codes "Username") (text c.username) (attr (codes "Password") (text c.password) no_attrs)

abbrev pub log_value : CreateUserCommand → Value
log_value c = group (
    attr (codes "username") (text c.username)
      (attr (codes "password") (text (codes "[REDACTED]")) no_attrs))

abbrev pub command_value : CreateUserCommand → Value
command_value c = log_valuer (struct_fields c) (log_value c)

-- user_id and username, as both records of the service have them.
abbrev pub user_attrs : User → Attrs
user_attrs user =
    attr (codes "user_id") (text user.user_id)
      (attr (codes "username") (text user.username) no_attrs)

-- RedactKeys("password"), for both tracers.
abbrev pub opts : Opts
opts = record { log_key = []; redact_keys = codes "password" ∷ [] }

-- The arguments of the INSERT.
abbrev pub user_args : User → Bytes → List (Bytes × Value)
user_args user password =
    (codes "id", text user.user_id)
    ∷ (codes "username", text user.username)
    ∷ (codes "password", text password)
    ∷ []

abbrev pub insert_sql : Bytes
insert_sql =
    codes
      "\n\t\tINSERT INTO users (id, username, password)\n\t\tVALUES (@id, @username, @password)\n\t\tRETURNING id, username\n\t"

abbrev pub count_sql : Bytes
count_sql = codes "\n\t\tSELECT COUNT(*)\n\t\tFROM users\n\t\tWHERE username = @username\n\t"

abbrev pub scanned_user : QueryEnd (Bytes × Bytes) → Option QueryError → Try User
scanned_user end none = done (record { user_id = end.scanned.0; username = end.scanned.1 })
scanned_user end (some e) = failed (wrapped_failure (codes "insert user") (query_failure e))

abbrev pub scanned_count : QueryEnd ℤ → Option QueryError → Try ℤ
scanned_count end none = done end.scanned
scanned_count end (some e) =
    failed (wrapped_failure (codes "count users by username") (query_failure e))

module _ {D : Type 0} (env : Env D) (h : MultilineTextHandler) (id : Option Bytes) where
  -- Repository.Create.
  unfoldable pub repo_create : User → Bytes → M D (Try User)
  repo_create user password = do
    end ← traced env h opts id env.query_user insert_sql (user_args user password)
    pure (scanned_user end end.scan_failure)

  -- Repository.CountByUsername.
  unfoldable pub count_by_username : Bytes → M D (Try ℤ)
  count_by_username username = do
    end ← traced env h opts id env.query_count count_sql ((codes "username", text username) ∷ [])
    pure (scanned_count end end.scan_failure)

  abbrev pub service_logger : MultilineTextHandler
  service_logger = component env (codes "user.service") h

  abbrev pub counted : User → Try ℤ → M D (Try User)
  counted user (failed e) = pure (failed (wrapped_failure (codes "count users by username") e))
  counted user (done n) = do
    info env service_logger id (codes "created user") (user_attrs user)
    pure (done user)

  abbrev pub created : Try User → M D (Try User)
  created (failed e) = pure (failed (wrapped_failure (codes "create user") e))
  created (done user) = do n ← count_by_username user.username; counted user n

  -- Service.CreateUser.
  unfoldable pub service_create : CreateUserCommand → M D (Try User)
  unfolding repo_create count_by_username
  service_create c = do
    new_id ← outside env.new_uuid
    info env service_logger id (codes "creating user")
        (user_attrs (record { user_id = new_id; username = c.username }))
    user ← repo_create (record { user_id = new_id; username = c.username }) c.password
    created user

  abbrev pub outcome : Try User → M D (Try User)
  outcome (failed e) = do
    set (codes "service.outcome") (text (codes "failed"))
    set (codes "service.error") (failure (error_text e))
    pure (failed (wrapped_failure (codes "canonical create user") e))
  outcome (done user) = do
    set (codes "service.outcome") (text (codes "created"))
    set (codes "service.user_id") (text user.user_id)
    pure (done user)

  -- CanonicalCreateUser.CreateUser.
  unfoldable pub canonical_create : CreateUserCommand → M D (Try User)
  unfolding service_create
  canonical_create c = do
    set (codes "service.operation") (text (codes "create_user"))
    set (codes "service.command") (command_value c)
    user ← service_create c
    outcome user

  abbrev pub handler_logger : MultilineTextHandler
  handler_logger = component env (codes "http.user") h

  abbrev pub write_failure : String × String → Failure
  write_failure (what, e) =
      wrapped_failure (codes "encode json response")
        (wrapped_failure (codes what) (other_failure (codes e)))

  abbrev pub log_write_failure : Option (String × String) → M D (Unit {0})
  log_write_failure none = pure tt
  log_write_failure (some e) =
      log env handler_logger id (codes "ERROR") (codes "write error response failed")
        (attr (codes "err") (failure (error_text (write_failure e))) no_attrs)

  -- Handler.writeError.
  unfoldable pub write_error : ℕ → Bytes → M D (Unit {0})
  write_error code msg = do e ← respond env code (env.encode_error msg); log_write_failure e

  abbrev pub written : Option (String × String) → Try (Unit {0})
  written none = done tt
  written (some e) = failed (wrapped_failure (codes "write create user response") (write_failure e))

  abbrev pub answered : Try User → M D (Try (Unit {0}))
  answered (failed e) = pure (failed (wrapped_failure (codes "call user service") e))
  answered (done user) = do
    e ← respond env 201 (env.encode_user user.user_id user.username)
    pure (written e)

  -- Handler.createUser behind the check of the fields.
  abbrev pub checked : CreateUserCommand → Bool → M D (Try (Unit {0}))
  checked c true = do write_error 400 (codes "username and password are required"); pure (done tt)
  checked c false = do user ← canonical_create c; answered user

  -- Handler.createUser, on what the decoder makes of the body.
  unfoldable pub create_user : Try CreateUserCommand → M D (Try (Unit {0}))
  unfolding canonical_create write_error
  create_user (failed e) = pure (failed (wrapped_failure (codes "decode create user request") e))
  create_user (done c) = do
    info env handler_logger id (codes "decoded create user request")
        (attr (codes "request") (command_value c) no_attrs)
    checked c (is_empty c.username || is_empty c.password)

  abbrev pub finished : Try (Unit {0}) → M D (Unit {0})
  finished (done u) = pure tt
  finished (failed e) = do
    log env handler_logger id (codes "ERROR") (codes "create user failed")
        (attr (codes "err") (failure (error_text e)) no_attrs)
    write_error 500 (codes "internal server error")

  -- Handler.create.
  unfoldable pub create : Try CreateUserCommand → M D (Unit {0})
  unfolding create_user
  create request = do r ← create_user request; finished r
