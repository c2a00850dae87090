-- ===== src/Log/Users/Created.antt =====
-- That the service cannot tell two passwords apart, but in the arguments of its INSERT.
use go_backend_examples.Common.{
  ◌≡◌, ◌≢◌, refl, true, false, Option, List, [], ◌∷◌, Bytes, codes, eq_bytes, ℤ,
}
use go_backend_examples.Log.Value.{text, failure}
use go_backend_examples.Log.Multiline.{MultilineTextHandler}
use go_backend_examples.Log.Tracer.Redacts.{SameVisible}
use go_backend_examples.Log.World.{Env, set}
use go_backend_examples.Log.Users.{
  User, Try, done, failed, command_value, user_attrs, opts, user_args, insert_sql, count_sql,
  scanned_user, scanned_count, repo_create, count_by_username, counted, created, service_create,
  outcome, canonical_create, wrapped_failure, service_logger, error_text,
}
use go_backend_examples.Log.Users.Rules.{Alike}
use go_backend_examples.Log.Users.Worlds.{
  SameWorld, Unseen, pure-Alike, outside-Alike, set-Alike, set-then, bind-Alike, log-then,
  traced-Alike,
}

abbrev pub hidden : List Bytes
hidden = codes "password" ∷ []

pub some_hidden : hidden ≢ []
some_hidden e = cc e

apart : true ≡ false → ⊥
apart e = cc e

pub user_args-SameVisible :
    (user : User) (p q : Bytes) → SameVisible hidden (user_args user p) (user_args user q)
unfolding eq_bytes
user_args-SameVisible user p q =
    (refl, (λ e. refl), (refl, (λ e. refl), (refl, (λ e. absurd (apart e)), tt)))

module _ {D : Type 0} (env : Env D) (R : D → D → Type 0) (kept : D → Bytes)
    (law : Unseen env R hidden kept) where
  module _ (h : MultilineTextHandler) (id : Option Bytes) where
    repo_create-Alike :
        (user : User) (p q : Bytes)
        → Alike (SameWorld R) (repo_create env h id user p) (repo_create env h id user q)
    unfolding repo_create
    repo_create-Alike user p q =
        bind-Alike R _ _ _ _
          (traced-Alike env R hidden kept law h opts id env.query_user insert_sql (user_args user p)
            (user_args user q) (law.same_user _ _ _ (user_args-SameVisible user p q)) some_hidden
            (user_args-SameVisible user p q))
          (λ end. pure-Alike R (scanned_user end end.scan_failure))

    count_by_username-Alike :
        (username : Bytes)
        → Alike
            (SameWorld R)
            (count_by_username env h id username)
            (count_by_username env h id username)
    unfolding count_by_username
    count_by_username-Alike username =
        bind-Alike R _ _ _ _
          (traced-Alike env R hidden kept law h opts id env.query_count count_sql
            ((codes "username", text username) ∷ []) ((codes "username", text username) ∷ [])
            (law.same_count _ _) some_hidden (refl, (λ e. refl), tt))
          (λ end. pure-Alike R (scanned_count end end.scan_failure))

    counted-Alike :
        (user : User) (n : Try ℤ)
        → Alike (SameWorld R) (counted env h id user n) (counted env h id user n)
    counted-Alike user (failed e) = pure-Alike R (failed (wrapped_failure _ e))
    counted-Alike user (done n) =
        log-then env R hidden kept law (service_logger env h id) id (codes "INFO")
          (codes "created user") (user_attrs user) _ _ (pure-Alike R (done user))

    created-Alike :
        (user : Try User) → Alike (SameWorld R) (created env h id user) (created env h id user)
    created-Alike (failed e) = pure-Alike R (failed (wrapped_failure _ e))
    created-Alike (done user) =
        bind-Alike R _ _ _ _ (count_by_username-Alike user.username) (λ n. counted-Alike user n)

    service_create-Alike :
        (u p q : Bytes)
        → Alike
            (SameWorld R)
            (service_create env h id (record { username = u; password = p }))
            (service_create env h id (record { username = u; password = q }))
    unfolding service_create
    service_create-Alike u p q = bind-Alike R _ _ _ _ (outside-Alike R _ _ law.same_uuid) (λ new_id.
        log-then env R hidden kept law (service_logger env h id) id (codes "INFO")
          (codes "creating user") (user_attrs (record { user_id = new_id; username = u })) _ _
          (bind-Alike R _ _ _ _ (repo_create-Alike (record { user_id = new_id; username = u }) p q)
            created-Alike))

    outcome-Alike :
        (user : Try User) → Alike (SameWorld R) (outcome env h id user) (outcome env h id user)
    outcome-Alike (failed e) = set-then R (codes "service.outcome") (text (codes "failed")) _ _ (
        set-then R (codes "service.error") (failure (error_text e)) _ _
          (pure-Alike R (failed (wrapped_failure (codes "canonical create user") e))))
    outcome-Alike (done user) =
        set-then R (codes "service.outcome") (text (codes "created")) _ _
          (set-then R (codes "service.user_id") (text user.user_id) _ _ (pure-Alike R (done user)))

    command-Alike :
        (u p q : Bytes)
        → Alike
            (SameWorld R)
            (set (codes "service.command") (command_value (record { username = u; password = p })))
            (set (codes "service.command") (command_value (record { username = u; password = q })))
    command-Alike u p q =
        set-Alike R (codes "service.command")
          (command_value (record { username = u; password = p }))
          (command_value (record { username = u; password = q })) refl

    pub canonical_create-Alike :
        (u p q : Bytes)
        → Alike
            (SameWorld R)
            (canonical_create env h id (record { username = u; password = p }))
            (canonical_create env h id (record { username = u; password = q }))
    unfolding canonical_create
    canonical_create-Alike u p q =
        set-then R (codes "service.operation") (text (codes "create_user")) _ _ (
          bind-Alike R _ _ _ _ (command-Alike u p q)
            (λ _. bind-Alike R _ _ _ _ (service_create-Alike u p q) outcome-Alike))
