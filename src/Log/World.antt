-- ===== src/Log/World.antt =====
-- What the parts of the example logging do to the world: the logger (slog with the handlers of
-- logging/slogctx), a query with both tracers around it (logging/postgres), the bag of the request
-- (logging/canonicallog) and the response (logging/httpserver).
use go_backend_examples.Common.{ℕ, ℤ, String, Option, List, [], ◌∷◌, Bytes, codes}
use go_backend_examples.Action.{Action}
use go_backend_examples.HttpLog
use go_backend_examples.HttpLog.{Event, StatusResponseWriter, write_header}
use go_backend_examples.Log.Value.{Value, text, Attrs, no_attrs, attr}
use go_backend_examples.Log.Bag.{Bag}
use go_backend_examples.Log.Bag
use go_backend_examples.Log.Multiline.{Format, MultilineTextHandler, with_attrs, handle_with_id}
use go_backend_examples.Log.Tracer
use go_backend_examples.Log.Tracer.{
  QueryArg, named_args, QueryError, Opts, QueryTrace, logged_query, canonical_query,
}

-- What a query ends with: the error and the rows affected that pgx reports to its tracers, and the error
-- that Scan returns, or what it reads.
pub record QueryEnd (A : Type 0) : Type 0 where
  pub failure : Option QueryError
  pub rows : ℤ
  pub scan_failure : Option QueryError
  pub scanned : A

-- The clock, uuid.New, the writer of the log, the database (a statement with its arguments, and the
-- id and name, or the number, that Scan reads from its row), encoding/json and the connection.
pub record Env (D : Type 0) : Type 0 where
  pub format : Format
  pub now : D → ℕ × D
  pub new_uuid : D → Bytes × D
  pub write : Bytes → Action D (Unit {0})
  pub query_user : Bytes → List (Bytes × Value) → D → QueryEnd (Bytes × Bytes) × D
  pub query_count : Bytes → List (Bytes × Value) → D → QueryEnd ℤ × D
  pub encode_user : Bytes → Bytes → Bytes
  pub encode_error : Bytes → Bytes
  pub accept : Bytes → List Event → ℕ × Option String

-- The world of a request: all that is outside of the program, the bag of its context, and its response
-- writer.
pub record World (D : Type 0) : Type 0 where
  pub outside : D
  pub bag : Option Bag
  pub writer : StatusResponseWriter

abbrev pub M : Type 0 → Type 0 → Type 0
M D A = World D → A × World D

module _ {D A : Type 0} where
  abbrev pub pure : A → M D A
  pure a w = (a, w)

module _ {D A B : Type 0} where
  infixl 1 ◌>>=◌ ◌>>◌
  abbrev pub ◌>>=◌ : M D A → (A → M D B) → M D B
  ◌>>=◌ m k w = let (a, v) = m w in k a v

  abbrev pub ◌>>◌ : M D A → M D B → M D B
  m >> k = m >>= λ _. k

module _ {D A : Type 0} where
  -- Something done outside.
  abbrev pub outside : (D → A × D) → M D A
  outside f w =
      let (a, d) = f w.outside in (a, record { outside = d; bag = w.bag; writer = w.writer })

module _ {D : Type 0} where
  -- A call on the bag of the context.
  abbrev pub on_bag : (Option Bag → Option Bag) → M D (Unit {0})
  on_bag f w = (tt, record { outside = w.outside; bag = f w.bag; writer = w.writer })

  abbrev pub set : Bytes → Value → M D (Unit {0})
  set key v = on_bag (Bag.set key v)

-- The trace of a query with named arguments.
abbrev pub trace_of : Bytes → List (Bytes × Value) → ℕ → QueryTrace
trace_of sql args t = record { sql = sql; args = named_args args ∷ []; started_at = t }

module _ {D : Type 0} (env : Env D) where
  -- What a logger does with a record; its error is dropped by slog.
  abbrev pub handle_record :
      MultilineTextHandler → Option Bytes → Bytes → Bytes → Attrs → ℕ → D → Unit {0} × D
  handle_record h id level msg xs t d = (
    tt,
    (handle_with_id env.format env.write id h
        (record { created = t; level = level; message = msg; attributes = xs }) d).1,
  )

  -- logger.InfoContext and logger.ErrorContext, for the id that the context carries.
  unfoldable pub log : MultilineTextHandler → Option Bytes → Bytes → Bytes → Attrs → M D (Unit {0})
  log h id level msg xs = do t ← outside env.now; outside (handle_record h id level msg xs t)

  abbrev pub info : MultilineTextHandler → Option Bytes → Bytes → Attrs → M D (Unit {0})
  info h id = log h id (codes "INFO")

  abbrev pub component : Bytes → MultilineTextHandler → MultilineTextHandler
  component name h = with_attrs (attr (codes "component") (text name) no_attrs) h

  module _ {A : Type 0} (h : MultilineTextHandler) (opts : Opts) (id : Option Bytes) where
    -- TraceQueryEnd of both tracers, the logging one first.
    unfoldable pub trace_ends : QueryTrace → QueryTrace → QueryEnd A → M D (Unit {0})
    unfolding log
    trace_ends logging canonical end = do
      t ← outside env.now
      info (component (codes "postgres.query") h) id Tracer.message
          (logged_query opts logging t end.failure end.rows)
      u ← outside env.now
      on_bag (canonical_query opts canonical u end.failure end.rows)

    -- A query on the pool, with both tracers, which pgx calls around it.
    unfoldable pub traced :
        (Bytes → List (Bytes × Value) → D → QueryEnd A × D)
        → Bytes
        → List (Bytes × Value)
        → M D (QueryEnd A)
    unfolding trace_ends
    traced run sql args = do
      t ← outside env.now
      u ← outside env.now
      end ← outside (run sql args)
      trace_ends (trace_of sql args t) (trace_of sql args u) end
      pure end

  -- w.WriteHeader(code), and one Write; the error of the latter.
  unfoldable pub respond : ℕ → Bytes → M D (Option (String × String))
  respond code body w =
      let (r, writer) = HttpLog.write env.accept body (write_header code w.writer) in
      (r.1, record { outside = w.outside; bag = w.bag; writer = writer })
