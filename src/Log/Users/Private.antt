-- ===== src/Log/Users/Private.antt =====
-- That no log shows the password of a request to create a user.
use go_backend_examples.Common.{
  ℕ, ◌-◌, ◌≡◌, refl, subst, String, Bool, true, false, ◌||◌, Option, none, some, [], ◌∷◌, Bytes,
  codes, pos,
}
use go_backend_examples.HttpLog.{new_writer}
use go_backend_examples.Log.Value.{text, failure, int, duration, no_attrs, attr}
use go_backend_examples.Log.Bag.{new_bag, attrs}
use go_backend_examples.Log.Bag.Public.{SameLines, attrs-SameBag}
use go_backend_examples.Log.Multiline.{MultilineTextHandler, is_empty, flatten_attrs}
use go_backend_examples.Log.World.{Env, info, component}
use go_backend_examples.Log.Users.{
  User, Try, done, failed, command_value, error_text, wrapped_failure, handler_logger,
  write_failure, log_write_failure, write_error, written, answered, checked, create_user, finished,
  create,
}
use go_backend_examples.Log.Served.{
  canonical_line, context_id, serve, request_attrs, finished_line, serve_logged,
}
use go_backend_examples.Log.Users.Rules.{Alike}
use go_backend_examples.Log.Users.Worlds.{
  SameWorld, Unseen, pure-Alike, outside-Alike, set-then, bind-Alike, log-Alike, log-same, log-then,
  writer-Alike, bag-Alike, respond-Alike,
}
use go_backend_examples.Log.Users.Created.{hidden, canonical_create-Alike}

request-SameLines :
    (u p q : Bytes)
    → SameLines
        (attr (codes "request") (command_value (record { username = u; password = p })) no_attrs)
        (attr (codes "request") (command_value (record { username = u; password = q })) no_attrs)
unfolding flatten_attrs
request-SameLines u p q groups = refl

module _ {D : Type 0} (env : Env D) (R : D → D → Type 0) (kept : D → Bytes)
    (law : Unseen env R hidden kept) where
  module _ (h : MultilineTextHandler) (id : Option Bytes) where
    log_write_failure-Alike :
        (e : Option (String × String))
        → Alike (SameWorld R) (log_write_failure env h id e) (log_write_failure env h id e)
    log_write_failure-Alike none = pure-Alike R tt
    log_write_failure-Alike (some e) =
        log-same env R hidden kept law (handler_logger env h id) id (codes "ERROR")
          (codes "write error response failed")
          (attr (codes "err") (failure (error_text (write_failure env h id e))) no_attrs)

    write_error-Alike :
        (code : ℕ) (msg : Bytes)
        → Alike (SameWorld R) (write_error env h id code msg) (write_error env h id code msg)
    unfolding write_error
    write_error-Alike code msg =
        bind-Alike R _ _ _ _ (respond-Alike env R hidden kept law code (env.encode_error msg))
          log_write_failure-Alike

    answered-Alike :
        (user : Try User) → Alike (SameWorld R) (answered env h id user) (answered env h id user)
    answered-Alike (failed e) =
        pure-Alike R (failed (wrapped_failure (codes "call user service") e))
    answered-Alike (done user) =
        bind-Alike R _ _ _ _
          (respond-Alike env R hidden kept law 201 (env.encode_user user.user_id user.username))
          (λ e. pure-Alike R (written env h id e))

    checked-Alike :
        (u p q : Bytes) (invalid : Bool)
        → Alike
            (SameWorld R)
            (checked env h id (record { username = u; password = p }) invalid)
            (checked env h id (record { username = u; password = q }) invalid)
    checked-Alike u p q true =
        bind-Alike R _ _ _ _ (write_error-Alike 400 (codes "username and password are required"))
          (λ _. pure-Alike R (done tt))
    checked-Alike u p q false =
        bind-Alike R _ _ _ _ (canonical_create-Alike env R kept law h id u p q) answered-Alike

    decoded-Alike :
        (u p q : Bytes)
        → Alike
            (SameWorld R)
            (info env (handler_logger env h id) id (codes "decoded create user request") (
              attr
                (codes "request")
                (command_value (record { username = u; password = p }))
                no_attrs))
            (info env (handler_logger env h id) id (codes "decoded create user request") (
              attr
                (codes "request")
                (command_value (record { username = u; password = q }))
                no_attrs))
    decoded-Alike u p q =
        log-Alike env R hidden kept law (handler_logger env h id) id (codes "INFO")
          (codes "decoded create user request")
          (attr (codes "request") (command_value (record { username = u; password = p })) no_attrs)
          (attr (codes "request") (command_value (record { username = u; password = q })) no_attrs)
          (request-SameLines u p q)

    create_user-Alike :
        (u p q : Bytes)
        → is_empty p ≡ is_empty q
        → Alike
            (SameWorld R)
            (create_user env h id (done (record { username = u; password = p })))
            (create_user env h id (done (record { username = u; password = q })))
    unfolding create_user
    create_user-Alike u p q e = bind-Alike R _ _ _ _ (decoded-Alike u p q) (λ _.
        subst
          (λ b.
            Alike (SameWorld R)
              (checked env h id (record { username = u; password = p }) (is_empty u || is_empty p))
              (checked env h id (record { username = u; password = q }) (is_empty u || b)))
          e (checked-Alike u p q (is_empty u || is_empty p)))

    finished-Alike :
        (r : Try (Unit {0})) → Alike (SameWorld R) (finished env h id r) (finished env h id r)
    finished-Alike (done u) = pure-Alike R tt
    finished-Alike (failed e) =
        log-then env R hidden kept law (handler_logger env h id) id (codes "ERROR")
          (codes "create user failed") (attr (codes "err") (failure (error_text e)) no_attrs) _ _
          (write_error-Alike 500 (codes "internal server error"))

    create-Alike :
        (u p q : Bytes)
        → is_empty p ≡ is_empty q
        → Alike
            (SameWorld R)
            (create env h id (done (record { username = u; password = p })))
            (create env h id (done (record { username = u; password = q })))
    unfolding create
    create-Alike u p q e = bind-Alike R _ _ _ _ (create_user-Alike u p q e) finished-Alike

    canonical_line-Alike :
        (method path : Bytes) (started : ℕ)
        → Alike
            (SameWorld R)
            (canonical_line env h id method path started)
            (canonical_line env h id method path started)
    unfolding canonical_line
    canonical_line-Alike method path started = set-then R (codes "http.method") (text method) _ _ (
        set-then R (codes "http.path") (text path) _ _ (
          bind-Alike R _ _ _ _ (writer-Alike R) (λ w.
            set-then R (codes "http.status") (int (pos w.status_code)) _ _ (
              set-then R (codes "http.response_bytes") (int (pos w.bytes)) _ _ (
                bind-Alike R _ _ _ _ (outside-Alike R _ _ law.same_now) (λ ended.
                  set-then R (codes "http.duration") (duration (pos (ended - started))) _ _ (
                    bag-Alike R _ _ (λ b c s.
                      log-Alike env R hidden kept law (component env (codes "http.canonical") h) id
                        (codes "INFO") (codes "http/request") (attrs b) (attrs c)
                        (attrs-SameBag b c s)))))))))

  context_id-Alike :
      (h : MultilineTextHandler) (header : Bytes)
      → Alike (SameWorld R) (context_id env h header) (context_id env h header)
  context_id-Alike h [] = outside-Alike R _ _ law.same_uuid
  context_id-Alike h (c ∷ s) = pure-Alike R (c ∷ s)

  served-Alike :
      (h : MultilineTextHandler) (header method path u p q : Bytes) (d d' : D)
      → is_empty p ≡ is_empty q
      → R d d'
      → R
          (serve env h header method path (done (record { username = u; password = p })) d)
          (serve env h header method path (done (record { username = u; password = q })) d')
  unfolding serve
  served-Alike h header method path u p q d d' e r =
      (bind-Alike R _ _ _ _ (context_id-Alike h header)
        (λ id. bind-Alike R _ _ _ _ (outside-Alike R _ _ law.same_now) (λ started.
          bind-Alike R _ _ _ _ (create-Alike h (some id) u p q e)
            (λ _. canonical_line-Alike h (some id) method path started)))
        (record { outside = d; bag = some new_bag; writer = new_writer })
        (record { outside = d'; bag = some new_bag; writer = new_writer }) (r, refl, refl)).1.0

  finished_line-Alike :
      (h : MultilineTextHandler) (id : Option Bytes) (method path : Bytes) (started : ℕ)
      → Alike
          (SameWorld R)
          (finished_line env h id method path started)
          (finished_line env h id method path started)
  unfolding finished_line
  finished_line-Alike h id method path started = bind-Alike R _ _ _ _ (writer-Alike R) (λ w.
      bind-Alike R _ _ _ _ (outside-Alike R _ _ law.same_now) (λ ended.
        log-same env R hidden kept law (component env (codes "http.middleware") h) id (codes "INFO")
          (codes "request finished")
          (request_attrs env h method path (
            attr (codes "status") (int (pos w.status_code)) (
              attr (codes "response_bytes") (int (pos w.bytes))
                (attr (codes "duration") (duration (pos (ended - started))) no_attrs))))))

  served_logged-Alike :
      (h : MultilineTextHandler) (header method path u p q : Bytes) (d d' : D)
      → is_empty p ≡ is_empty q
      → R d d'
      → R
          (serve_logged env h header method path (done (record { username = u; password = p })) d)
          (serve_logged env h header method path (done (record { username = u; password = q })) d')
  unfolding serve_logged
  served_logged-Alike h header method path u p q d d' e r =
      (bind-Alike R _ _ _ _ (context_id-Alike h header)
        (λ id. bind-Alike R _ _ _ _ (outside-Alike R _ _ law.same_now) (λ started.
          log-then env R hidden kept law (component env (codes "http.middleware") h) (some id)
            (codes "INFO") (codes "request started") (request_attrs env h method path no_attrs) _ _
            (bind-Alike R _ _ _ _ (create-Alike h (some id) u p q e)
              (λ _. finished_line-Alike h (some id) method path started))))
        (record { outside = d; bag = none; writer = new_writer })
        (record { outside = d'; bag = none; writer = new_writer }) (r, refl, refl)).1.0

  -- The password of a request to create a user reaches no log, under the canonical middleware and under
  -- LoggerMiddleware: where two requests differ in nothing but their passwords, both empty or neither,
  -- what is logged on the way (the records of the middleware, the handler, the service and the query
  -- tracer, error texts, and the canonical line with all that the bag has collected) is the same. The
  -- condition on the world beneath is that its clock, ids, log writer and database cannot tell apart
  -- two states that `R` relates, the database's INSERT being given another password, and that related
  -- states hold the same log.
  pub serve-Private :
      (h : MultilineTextHandler) (header method path u p q : Bytes) (d d' : D)
      → is_empty p ≡ is_empty q
      → R d d'
      → (kept (serve env h header method path (done (record { username = u; password = p })) d)
          ≡ kept (serve env h header method path (done (record { username = u; password = q })) d'))
        × (kept (
              serve_logged env h header method path
                (done (record { username = u; password = p }))
                d)
            ≡ kept (
                serve_logged env h header method path
                  (done (record { username = u; password = q }))
                  d'))
  serve-Private h header method path u p q d d' e r = (
    law.same_log _ _ (served-Alike h header method path u p q d d' e r),
    law.same_log _ _ (served_logged-Alike h header method path u p q d d' e r),
  )
