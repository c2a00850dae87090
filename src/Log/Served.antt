-- ===== src/Log/Served.antt =====
-- logging/httpserver/middleware.go: both middlewares around the handler that creates a user.
use go_backend_examples.Common.{ℕ, ◌-◌, pos, Option, none, some, [], ◌∷◌, Bytes, codes}
use go_backend_examples.HttpLog.{new_writer}
use go_backend_examples.Log.Value.{text, int, duration, Attrs, no_attrs, attr}
use go_backend_examples.Log.Bag.{new_bag, attrs}
use go_backend_examples.Log.Multiline.{MultilineTextHandler}
use go_backend_examples.Log.World.{Env, M, pure, ◌>>=◌, ◌>>◌, outside, set, info, component}
use go_backend_examples.Log.Users.{Try, CreateUserCommand, create}

module _ {D : Type 0} (env : Env D) (h : MultilineTextHandler) (id : Option Bytes) where
  -- What CanonicalLoggingMiddleware does behind the handler.
  unfoldable pub canonical_line : Bytes → Bytes → ℕ → M D (Unit {0})
  canonical_line method path started = do
    set (codes "http.method") (text method)
    set (codes "http.path") (text path)
    w ← λ w. (w.writer, w)
    set (codes "http.status") (int (pos w.status_code))
    set (codes "http.response_bytes") (int (pos w.bytes))
    ended ← outside env.now
    set (codes "http.duration") (duration (pos (ended - started)))
    bag ← λ w. (w.bag, w)
    info env (component env (codes "http.canonical") h) id (codes "http/request") (attrs bag)

module _ {D : Type 0} (env : Env D) (h : MultilineTextHandler) where
  -- contextWithRequestID: the id of the header, or a new one.
  abbrev pub context_id : Bytes → M D Bytes
  context_id [] = outside env.new_uuid
  context_id (c ∷ s) = pure (c ∷ s)

  -- CanonicalLoggingMiddleware around Handler.create: a new bag, a new response writer, the handler, and
  -- the canonical line.
  unfoldable pub serve : Bytes → Bytes → Bytes → Try CreateUserCommand → D → D
  unfolding create canonical_line
  serve header method path request d =
      ((do
        id ← context_id header
        started ← outside env.now
        create env h (some id) request
        canonical_line env h (some id) method path started)
        (record { outside = d; bag = some new_bag; writer = new_writer })).1.outside

  abbrev pub request_attrs : Bytes → Bytes → Attrs → Attrs
  request_attrs method path rest =
      attr (codes "method") (text method) (attr (codes "path") (text path) rest)

  -- The record behind the handler in LoggerMiddleware.
  unfoldable pub finished_line : Option Bytes → Bytes → Bytes → ℕ → M D (Unit {0})
  finished_line id method path started = do
    w ← λ w. (w.writer, w)
    ended ← outside env.now
    info env (component env (codes "http.middleware") h) id (codes "request finished") (
        request_attrs method path (
          attr (codes "status") (int (pos w.status_code)) (
            attr (codes "response_bytes") (int (pos w.bytes))
              (attr (codes "duration") (duration (pos (ended - started))) no_attrs))))

  -- LoggerMiddleware around Handler.create; the context carries no bag.
  unfoldable pub serve_logged : Bytes → Bytes → Bytes → Try CreateUserCommand → D → D
  unfolding create finished_line
  serve_logged header method path request d =
      ((do
        id ← context_id header
        started ← outside env.now
        info env (component env (codes "http.middleware") h) (some id) (codes "request started")
            (request_attrs method path no_attrs)
        create env h (some id) request
        finished_line (some id) method path started)
        (record { outside = d; bag = none; writer = new_writer })).1.outside
