-- ===== src/Log/Users/Outcome.antt =====
-- That the canonical line's outcome goes with the status of the response.
use go_backend_examples.Common.{
  ℕ, ℤ, ◌≡◌, refl, ap, ◌∙◌, String, Bool, true, false, Option, none, some, [], ◌∷◌, Bytes, codes,
  eq_bytes, insert, lookup-insert,
}
use go_backend_examples.HttpLog.{StatusResponseWriter, new_writer, write_header}
use go_backend_examples.Log.Value.{Value, text, Attrs}
use go_backend_examples.Log.Bag.{Bag}
use go_backend_examples.Log.Bag
use go_backend_examples.Log.Bag.Ascending.{is_some}
use go_backend_examples.Log.Bag.Calls.{read}
use go_backend_examples.Log.Multiline.{MultilineTextHandler}
use go_backend_examples.Log.World.{Env, World, outside, set, log, info, traced, respond}
use go_backend_examples.Log.Users.{
  User, CreateUserCommand, Failure, Try, done, failed, command_value, user_attrs, user_args, opts,
  insert_sql, count_sql, repo_create, count_by_username, service_logger, counted, created,
  service_create, outcome, canonical_create, log_write_failure, write_error, finished,
}
use go_backend_examples.Log.Users.Kept.{Keeps, has_bag, set-has_bag, traced-has_bag}

-- The field that the canonical service sets, and what it sets it to.
abbrev pub outcome_of : {D : Type 0} → World D → Option Value
outcome_of w = read (codes "service.outcome") w.bag

abbrev pub outcome_text : Try User → Bytes
outcome_text (done user) = codes "created"
outcome_text (failed e) = codes "failed"

abbrev standing : {D : Type 0} → World D → StatusResponseWriter × Bool
standing w = (w.writer, has_bag w)

module _ {D : Type 0} (env : Env D) (h : MultilineTextHandler) (id : Option Bytes) where
  set-standing : (k : Bytes) (v : Value) → Keeps {D = D} standing (set k v)
  set-standing k v w = ap (λ b. (w.writer, b)) (set-has_bag k v w)

  log-standing :
      (l : MultilineTextHandler) (level msg : Bytes) (xs : Attrs)
      → Keeps standing (log env l id level msg xs)
  unfolding log
  log-standing l level msg xs w = refl

  repo_create-standing : (user : User) (p : Bytes) → Keeps standing (repo_create env h id user p)
  unfolding repo_create traced
  repo_create-standing user p w =
      ap (λ b. (w.writer, b))
        (traced-has_bag env h opts id env.query_user insert_sql (user_args user p) w)

  count-standing : (name : Bytes) → Keeps standing (count_by_username env h id name)
  unfolding count_by_username traced
  count-standing name w =
      ap (λ b. (w.writer, b))
        (traced-has_bag env h opts id env.query_count count_sql ((codes "username", text name) ∷ [])
          w)

  counted-standing : (user : User) (n : Try ℤ) → Keeps standing (counted env h id user n)
  counted-standing user (failed e) w = refl
  counted-standing user (done n) w =
      log-standing (service_logger env h id) (codes "INFO") (codes "created user") (user_attrs user)
        w

  created-standing : (user : Try User) → Keeps standing (created env h id user)
  created-standing (failed e) w = refl
  created-standing (done user) w =
      let (n, v) = count_by_username env h id user.username w in
      counted-standing user n v ∙ count-standing user.username w

  service_create-standing : (c : CreateUserCommand) → Keeps standing (service_create env h id c)
  unfolding service_create
  service_create-standing c w =
      let (new_id, v) = outside env.new_uuid w in
      let user : User = record { user_id = new_id; username = c.username } in
      let (u, v₁) =
        info env (service_logger env h id) id (codes "creating user") (user_attrs user) v in
      let (user₁, v₂) = repo_create env h id user c.password v₁ in
      created-standing user₁ v₂
      ∙ repo_create-standing user c.password v₁
      ∙ log-standing (service_logger env h id) (codes "INFO") (codes "creating user")
          (user_attrs user) v

  outcome-standing : (r : Try User) → Keeps standing (outcome env h id r)
  outcome-standing (failed e) w =
      let (u, v) = set (codes "service.outcome") (text (codes "failed")) w in
      set-standing (codes "service.error") _ v ∙ set-standing (codes "service.outcome") _ w
  outcome-standing (done user) w =
      let (u, v) = set (codes "service.outcome") (text (codes "created")) w in
      set-standing (codes "service.user_id") _ v ∙ set-standing (codes "service.outcome") _ w

  -- The outcome that is set, whatever is set under another key behind it.
  read-outcome :
      (k : Bytes) (u v : Value) (b : Option Bag)
      → eq_bytes k (codes "service.outcome") ≡ false
      → is_some b ≡ true
      → read (codes "service.outcome") (Bag.set k u (Bag.set (codes "service.outcome") v b))
        ≡ some v
  unfolding Bag.set eq_bytes
  read-outcome k u v none e p = cc
  read-outcome k u v (some b) e p =
      lookup-insert (codes "service.outcome") k u (insert (codes "service.outcome") v b)
      ∙ rw e (lookup-insert (codes "service.outcome") (codes "service.outcome") v b)

  outcome-set :
      (r : Try User) (w : World D)
      → has_bag w ≡ true
      → outcome_of (outcome env h id r w).1 ≡ some (text (outcome_text (outcome env h id r w).0))
  unfolding eq_bytes
  outcome-set (failed e) w p = read-outcome (codes "service.error") _ _ w.bag refl p
  outcome-set (done user) w p = read-outcome (codes "service.user_id") _ _ w.bag refl p

  -- What CreateUser of the canonical service leaves: the response writer as it was, and the outcome.
  pub canonical_create-outcome :
      (c : CreateUserCommand) (w : World D)
      → has_bag w ≡ true
      → ((canonical_create env h id c w).1.writer ≡ w.writer)
        × (outcome_of (canonical_create env h id c w).1
            ≡ some (text (outcome_text (canonical_create env h id c w).0)))
  unfolding canonical_create
  canonical_create-outcome c w p =
      let (t, v) = set (codes "service.operation") (text (codes "create_user")) w in
      let (t₁, v₁) = set (codes "service.command") (command_value c) v in
      let (r, v₂) = service_create env h id c v₁ in
      let same =
        service_create-standing c v₁
        ∙ set-standing (codes "service.command") (command_value c) v
        ∙ set-standing (codes "service.operation") (text (codes "create_user")) w in
      (ap (λ s. s.0) (outcome-standing r v₂ ∙ same), outcome-set r v₂ (ap (λ s. s.1) same ∙ p))

  -- The first response decides the status, and no response touches the bag.
  pub respond-first :
      (code : ℕ) (body : Bytes) (w : World D)
      → w.writer ≡ new_writer
      → ((respond env code body w).1.writer.status_code ≡ code)
        × ((respond env code body w).1.writer.wrote_header ≡ true)
  unfolding respond write_header
  respond-first code body w e = rw e (refl, refl)

  respond-later :
      (code : ℕ) (body : Bytes) (w : World D)
      → w.writer.wrote_header ≡ true
      → (respond env code body w).1.writer.status_code ≡ w.writer.status_code
  unfolding respond write_header
  respond-later code body w e = rw e

  log_write_failure-writer :
      (e : Option (String × String)) (w : World D)
      → ((log_write_failure env h id e w).1.writer ≡ w.writer)
        × ((log_write_failure env h id e w).1.bag ≡ w.bag)
  unfolding log
  log_write_failure-writer none w = (refl, refl)
  log_write_failure-writer (some e) w = (refl, refl)

  pub write_error-first :
      (code : ℕ) (msg : Bytes) (w : World D)
      → w.writer ≡ new_writer
      → ((write_error env h id code msg w).1.writer.status_code ≡ code)
        × ((write_error env h id code msg w).1.bag ≡ w.bag)
  unfolding write_error respond
  write_error-first code msg w e =
      let (x, v) = respond env code (env.encode_error msg) w in
      let (kept, bag) = log_write_failure-writer x v in
      (ap (λ r. r.status_code) kept ∙ (respond-first code (env.encode_error msg) w e).0, bag)

  pub write_error-later :
      (code : ℕ) (msg : Bytes) (w : World D)
      → w.writer.wrote_header ≡ true
      → ((write_error env h id code msg w).1.writer.status_code ≡ w.writer.status_code)
        × ((write_error env h id code msg w).1.bag ≡ w.bag)
  unfolding write_error respond
  write_error-later code msg w e =
      let (x, v) = respond env code (env.encode_error msg) w in
      let (kept, bag) = log_write_failure-writer x v in
      (ap (λ r. r.status_code) kept ∙ respond-later code (env.encode_error msg) w e, bag)

  -- An error that reaches `create` before any response.
  pub finished-first :
      (e : Failure) (w : World D)
      → w.writer ≡ new_writer
      → ((finished env h id (failed e) w).1.writer.status_code ≡ 500)
        × ((finished env h id (failed e) w).1.bag ≡ w.bag)
  unfolding log
  finished-first e w p = write_error-first 500 (codes "internal server error") _ p
