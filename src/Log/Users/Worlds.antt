-- ===== src/Log/Users/Worlds.antt =====
-- When two runs of the parts of the example logging cannot be told apart, whatever a hidden argument of
-- a statement is.
use go_backend_examples.Common.{ℕ, ◌≡◌, ◌≢◌, refl, ap, subst, Option, none, List, [], Bytes, codes}
use go_backend_examples.Log.Value.{Value, Attrs}
use go_backend_examples.Log.Bag.{Bag}
use go_backend_examples.Log.Bag.Public.{
  public, SameBag, SameLines, set-SameBag, canonical_query-SameBag,
}
use go_backend_examples.Log.Multiline.{MultilineTextHandler, flatten_attrs}
use go_backend_examples.Log.Tracer.{
  Opts, QueryTrace, QueryError, named_args, logged_query, canonical_query,
}
use go_backend_examples.Log.Tracer
use go_backend_examples.Log.Tracer.Redacts.{SameVisible, tracers-SameVisible}
use go_backend_examples.Log.World.{
  QueryEnd, Env, World, M, pure, ◌>>=◌, ◌>>◌, outside, on_bag, set, log, info, component, trace_of,
  trace_ends, traced, respond,
}
use go_backend_examples.Log.Users.Rules.{Alike, handled-SameLines}

module _ {D : Type 0} (R : D → D → Type 0) where
  -- Worlds that the program cannot tell apart but by the fields of a struct with a method LogValue.
  abbrev pub SameWorld : World D → World D → Type 0
  SameWorld v w = R v.outside w.outside × SameBag v.bag w.bag × (v.writer ≡ w.writer)

  module _ {A : Type 0} where
    pub pure-Alike : (a : A) → Alike SameWorld (pure a) (pure a)
    pure-Alike a v w s = (refl, s)

    pub outside-Alike : (f g : D → A × D) → Alike R f g → Alike SameWorld (outside f) (outside g)
    outside-Alike f g h v w (r, b, s) = let (e, t) = h v.outside w.outside r in (e, (t, b, s))

  pub on_bag-Alike :
      (f g : Option Bag → Option Bag)
      → ((b c : Option Bag) → SameBag b c → SameBag (f b) (g c))
      → Alike SameWorld (on_bag f) (on_bag g)
  on_bag-Alike f g h v w (r, s, t) = (refl, (r, h v.bag w.bag s, t))

  pub set-Alike :
      (k : Bytes) (u v : Value) → public u ≡ public v → Alike SameWorld (set k u) (set k v)
  set-Alike k u v e = on_bag-Alike _ _ (λ b c. set-SameBag k u v b c e)

  module _ {A B : Type 0} where
    pub bind-Alike :
        (m n : M D A) (k l : A → M D B)
        → Alike SameWorld m n
        → ((a : A) → Alike SameWorld (k a) (l a))
        → Alike SameWorld (m >>= k) (n >>= l)
    bind-Alike m n k l h e v w s =
        let (p, t) = h v w s in
        subst
          (λ a.
            ((k (m v).0 (m v).1).0 ≡ (l a (n w).1).0)
            × SameWorld (k (m v).0 (m v).1).1 (l a (n w).1).1)
          p (e (m v).0 (m v).1 (n w).1 t)

  pub writer-Alike : Alike SameWorld (λ w. (w.writer, w)) (λ w. (w.writer, w))
  writer-Alike v w (r, b, e) = (e, (r, b, e))

  module _ {B : Type 0} where
    pub bag-Alike :
        (k l : Option Bag → M D B)
        → ((b c : Option Bag) → SameBag b c → Alike SameWorld (k b) (l c))
        → Alike SameWorld ((λ w. (w.bag, w)) >>= k) ((λ w. (w.bag, w)) >>= l)
    bag-Alike k l h v w (r, b, e) = h v.bag w.bag b v w (r, b, e)

    pub set-then :
        (k : Bytes) (v : Value) (m n : M D B)
        → Alike SameWorld m n
        → Alike SameWorld (set k v >> m) (set k v >> n)
    set-then k v m n h =
        bind-Alike (set k v) (set k v) (λ _. m) (λ _. n) (set-Alike k v v refl) (λ _. h)

-- What `R` relates: worlds that the clock, the ids, the writer of the log and the database do not tell
-- apart, though the database may have been given other values for the hidden arguments. `kept` is what
-- the log holds.
pub record Unseen {D : Type 0} (env : Env D) (R : D → D → Type 0) (hidden : List Bytes)
    (kept : D → Bytes) : Type 0 where
  pub same_log : (d e : D) → R d e → kept d ≡ kept e
  pub same_now : Alike R env.now env.now
  pub same_uuid : Alike R env.new_uuid env.new_uuid
  pub same_write : (s : Bytes) → Alike R (env.write s) (env.write s)
  pub same_user :
      (sql : Bytes) (xs ys : List (Bytes × Value))
      → SameVisible hidden xs ys
      → Alike R (env.query_user sql xs) (env.query_user sql ys)
  pub same_count :
      (sql : Bytes) (xs : List (Bytes × Value))
      → Alike R (env.query_count sql xs) (env.query_count sql xs)

module _ {D : Type 0} (env : Env D) (R : D → D → Type 0) (hidden : List Bytes) (kept : D → Bytes)
    (law : Unseen env R hidden kept) where
  pub log-Alike :
      (h : MultilineTextHandler) (id : Option Bytes) (level msg : Bytes) (xs ys : Attrs)
      → SameLines xs ys
      → Alike (SameWorld R) (log env h id level msg xs) (log env h id level msg ys)
  unfolding log
  log-Alike h id level msg xs ys e = bind-Alike R _ _ _ _ (outside-Alike R _ _ law.same_now) (λ t.
      outside-Alike R _ _ (λ d d' r. (
        refl,
        (handled-SameLines env.format env.write R law.same_write id h t level msg xs ys e d d' r).1,
      )))

  pub log-same :
      (h : MultilineTextHandler) (id : Option Bytes) (level msg : Bytes) (xs : Attrs)
      → Alike (SameWorld R) (log env h id level msg xs) (log env h id level msg xs)
  log-same h id level msg xs = log-Alike h id level msg xs xs (λ groups. refl)

  module _ {B : Type 0} where
    pub log-then :
        (h : MultilineTextHandler) (id : Option Bytes) (level msg : Bytes) (xs : Attrs)
        (m n : M D B)
        → Alike (SameWorld R) m n
        → Alike (SameWorld R) (log env h id level msg xs >> m) (log env h id level msg xs >> n)
    log-then h id level msg xs m n e =
        bind-Alike R (log env h id level msg xs) (log env h id level msg xs) (λ _. m) (λ _. n)
          (log-same h id level msg xs) (λ _. e)

  pub respond-Alike :
      (code : ℕ) (body : Bytes)
      → Alike (SameWorld R) (respond env code body) (respond env code body)
  unfolding respond
  respond-Alike code body v w (r, b, e) = rw e (refl, (r, b, refl))

  module _ {A : Type 0} (h : MultilineTextHandler) (opts : Opts) (id : Option Bytes) where
    logged-Alike :
        (sql : Bytes) (xs ys : List (Bytes × Value)) (t t' : ℕ) (end : QueryEnd A)
        → opts.redact_keys ≢ []
        → SameVisible opts.redact_keys xs ys
        → Alike
            (SameWorld R)
            (info env
              (component env (codes "postgres.query") h)
              id
              Tracer.message
              (logged_query opts (trace_of sql xs t) t' end.failure end.rows))
            (info env
              (component env (codes "postgres.query") h)
              id
              Tracer.message
              (logged_query opts (trace_of sql ys t) t' end.failure end.rows))
    logged-Alike sql xs ys t t' end some_hidden e =
        log-Alike (component env (codes "postgres.query") h) id (codes "INFO") Tracer.message
          (logged_query opts (trace_of sql xs t) t' end.failure end.rows)
          (logged_query opts (trace_of sql ys t) t' end.failure end.rows)
          (λ groups.
            ap (flatten_attrs groups)
              (tracers-SameVisible opts sql t t' end.failure end.rows xs ys none some_hidden e).0)

    counted-Alike :
        (sql : Bytes) (xs ys : List (Bytes × Value)) (t t' : ℕ) (end : QueryEnd A)
        → opts.redact_keys ≢ []
        → SameVisible opts.redact_keys xs ys
        → Alike
            (SameWorld R)
            (on_bag (canonical_query opts (trace_of sql xs t) t' end.failure end.rows))
            (on_bag (canonical_query opts (trace_of sql ys t) t' end.failure end.rows))
    counted-Alike sql xs ys t t' end some_hidden e =
        on_bag-Alike R (canonical_query opts (trace_of sql xs t) t' end.failure end.rows)
          (canonical_query opts (trace_of sql ys t) t' end.failure end.rows)
          (λ b c s.
            subst
              (λ x. SameBag (canonical_query opts (trace_of sql xs t) t' end.failure end.rows b) x)
              (tracers-SameVisible opts sql t t' end.failure end.rows xs ys c some_hidden e).1
              (canonical_query-SameBag opts (trace_of sql xs t) t' end.failure end.rows b c s))

    trace_ends-Alike :
        (sql : Bytes) (xs ys : List (Bytes × Value)) (t u : ℕ) (end : QueryEnd A)
        → opts.redact_keys ≢ []
        → SameVisible opts.redact_keys xs ys
        → Alike
            (SameWorld R)
            (trace_ends env h opts id (trace_of sql xs t) (trace_of sql xs u) end)
            (trace_ends env h opts id (trace_of sql ys t) (trace_of sql ys u) end)
    unfolding trace_ends
    trace_ends-Alike sql xs ys t u end some_hidden e =
        bind-Alike R _ _ _ _ (outside-Alike R _ _ law.same_now) (λ t'.
          bind-Alike R _ _ _ _ (logged-Alike sql xs ys t t' end some_hidden e) (λ _.
            bind-Alike R _ _ _ _ (outside-Alike R _ _ law.same_now)
              (λ u'. counted-Alike sql xs ys u u' end some_hidden e)))

    pub traced-Alike :
        (run : Bytes → List (Bytes × Value) → D → QueryEnd A × D) (sql : Bytes)
        (xs ys : List (Bytes × Value))
        → Alike R (run sql xs) (run sql ys)
        → opts.redact_keys ≢ []
        → SameVisible opts.redact_keys xs ys
        → Alike (SameWorld R) (traced env h opts id run sql xs) (traced env h opts id run sql ys)
    unfolding traced
    traced-Alike run sql xs ys q some_hidden e =
        bind-Alike R _ _ _ _ (outside-Alike R _ _ law.same_now) (λ t.
          bind-Alike R _ _ _ _ (outside-Alike R _ _ law.same_now) (λ u.
            bind-Alike R _ _ _ _ (outside-Alike R _ _ q) (λ end.
              bind-Alike R _ _ _ _ (trace_ends-Alike sql xs ys t u end some_hidden e)
                (λ _. pure-Alike R end))))
