-- ===== src/Log/Users/Status.antt =====
-- The status of a request to create a user, and what its bag says of its end.
use go_backend_examples.Common.{
  ℕ, ◌≡◌, refl, ap, ◌∙◌, Bool, true, false, inl, inr, ◌||◌, ◌⊎◌, Option, some, Bytes, codes,
}
use go_backend_examples.HttpLog.{new_writer}
use go_backend_examples.Log.Value.{text, no_attrs, attr}
use go_backend_examples.Log.Bag.{Bag}
use go_backend_examples.Log.Bag.Calls.{read}
use go_backend_examples.Log.Multiline.{MultilineTextHandler, is_empty}
use go_backend_examples.Log.World.{Env, World, log, info, respond}
use go_backend_examples.Log.Users.{
  User, CreateUserCommand, Try, done, failed, command_value, canonical_create, written, answered,
  wrapped_failure, handler_logger, checked, create_user, finished, create,
}
use go_backend_examples.Log.Users.Kept.{has_bag}
use go_backend_examples.Log.Users.Outcome.{
  outcome_of, outcome_text, canonical_create-outcome, respond-first, write_error-first,
  write_error-later, finished-first,
}

-- The status that the response has got.
abbrev pub status : {D : Type 0} → World D → ℕ
status w = w.writer.status_code

-- What is told of a command in the world `v`, `before` being the bag that it began with; the Boolean
-- says that one of its fields is empty.
abbrev pub ToldOf : {D : Type 0} → Bool → Option Bag → World D → Type 0
ToldOf true before v = (status v ≡ 400) × (v.bag ≡ before)
ToldOf false before v =
    ((status v ≡ 201) × (outcome_of v ≡ some (text (codes "created"))))
    ⊎ ((status v ≡ 500) × (outcome_of v ≡ some (text (codes "failed"))))

-- What is told of a request.
abbrev pub Told : {D : Type 0} → Try CreateUserCommand → Option Bag → World D → Type 0
Told (failed e) before v = (status v ≡ 500) × (v.bag ≡ before)
Told (done c) before v = ToldOf (is_empty c.username || is_empty c.password) before v

module _ {D : Type 0} (env : Env D) (h : MultilineTextHandler) (id : Option Bytes) where
  finished-later :
      (r : Try (Unit {0})) (w : World D)
      → w.writer.wrote_header ≡ true
      → (status (finished env h id r w).1 ≡ status w) × ((finished env h id r w).1.bag ≡ w.bag)
  unfolding log
  finished-later (done u) w e = (refl, refl)
  finished-later (failed x) w e = write_error-later env h id 500 (codes "internal server error") _ e

  answered-told :
      (r : Try User) (before : Option Bag) (w : World D)
      → w.writer ≡ new_writer
      → outcome_of w ≡ some (text (outcome_text r))
      → ToldOf false before
          (finished env h id (answered env h id r w).0 (answered env h id r w).1).1
  unfolding respond
  answered-told (failed e) before w p o =
      let (code, bag) =
        finished-first env h id (wrapped_failure (codes "call user service") e) w p in
      inr (code, ap (read (codes "service.outcome")) bag ∙ o)
  answered-told (done user) before w p o =
      let body = env.encode_user user.user_id user.username in
      let (x, v) = respond env 201 body w in
      let (code, sent) = respond-first env h id 201 body w p in
      let (kept, bag) = finished-later (written env h id x) v sent in
      inl (kept ∙ code, ap (read (codes "service.outcome")) bag ∙ o)

  checked-told :
      (c : CreateUserCommand) (invalid : Bool) (w : World D)
      → w.writer ≡ new_writer
      → has_bag w ≡ true
      → ToldOf invalid w.bag
          (finished env h id (checked env h id c invalid w).0 (checked env h id c invalid w).1).1
  checked-told c true w p b =
      write_error-first env h id 400 (codes "username and password are required") w p
  checked-told c false w p b =
      let (kept, o) = canonical_create-outcome env h id c w b in
      answered-told (canonical_create env h id c w).0 w.bag (canonical_create env h id c w).1
        (kept ∙ p) o

  -- What a request to create a user leaves in its response and its bag. From a response writer that
  -- has sent nothing and a context with a bag: a body that is not decoded ends with status 500 and
  -- leaves the bag; an empty field with status 400, and leaves the bag; any other command with status
  -- 201 and the outcome "created", or with status 500 and the outcome "failed", whatever the database
  -- and the connection do.
  pub create-Told :
      (request : Try CreateUserCommand) (w : World D)
      → w.writer ≡ new_writer
      → has_bag w ≡ true
      → Told request w.bag (create env h id request w).1
  unfolding create create_user log
  create-Told (failed e) w p b =
      finished-first env h id (wrapped_failure (codes "decode create user request") e) w p
  create-Told (done c) w p b =
      checked-told c (is_empty c.username || is_empty c.password)
        (info env (handler_logger env h id) id (codes "decoded create user request")
          (attr (codes "request") (command_value c) no_attrs) w).1
        p b
