-- ===== src/Log/Users/Kept.antt =====
-- What the parts of the example logging leave as it was.
use go_backend_examples.Common.{
  ℕ, ℤ, pos, negsuc, zero, suc, ◌≡◌, refl, ◌∙◌, Bool, Option, none, some, List, Bytes,
}
use go_backend_examples.HttpLog.{StatusResponseWriter}
use go_backend_examples.Log.Value.{Value, Attrs}
use go_backend_examples.Log.Bag.{Bag}
use go_backend_examples.Log.Bag
use go_backend_examples.Log.Bag.Ascending.{is_some}
use go_backend_examples.Log.Multiline.{MultilineTextHandler}
use go_backend_examples.Log.Tracer.{
  Opts, QueryTrace, QueryError, canonical_query, count_rows, count_error,
}
use go_backend_examples.Log.World.{
  QueryEnd, Env, World, M, pure, ◌>>=◌, set, log, trace_ends, traced, respond,
}

module _ {D X : Type 0} (f : World D → X) where
  -- A call that leaves `f` of the world.
  abbrev pub Keeps : {A : Type 0} → M D A → Type 0
  Keeps m = (w : World D) → f (m w).1 ≡ f w

  module _ {A B : Type 0} where
    pub Keeps-bind :
        (m : M D A) (k : A → M D B) → Keeps m → ((a : A) → Keeps (k a)) → Keeps (m >>= k)
    Keeps-bind m k h hk w = hk (m w).0 (m w).1 ∙ h w

  module _ {A : Type 0} where
    pub Keeps-pure : (a : A) → Keeps (pure a)
    Keeps-pure a w = refl

-- The bag, if there is one, stays one.
abbrev pub has_bag : {D : Type 0} → World D → Bool
has_bag w = is_some w.bag

abbrev pub writer_of : {D : Type 0} → World D → StatusResponseWriter
writer_of w = w.writer

is_some-on_bag : (f : Bag → Bag) (b : Option Bag) → is_some (Bag.on_bag f b) ≡ is_some b
is_some-on_bag f none = refl
is_some-on_bag f (some b) = refl

is_some-count_rows : (n : ℤ) (b : Option Bag) → is_some (count_rows n b) ≡ is_some b
unfolding Bag.add
is_some-count_rows (pos (suc n)) b = is_some-on_bag _ b
is_some-count_rows (pos zero) b = refl
is_some-count_rows (negsuc n) b = refl

is_some-count_error :
    (e : Option QueryError) (b : Option Bag) → is_some (count_error e b) ≡ is_some b
unfolding Bag.add
is_some-count_error none b = refl
is_some-count_error (some e) b = is_some-on_bag _ b

is_some-canonical_query :
    (opts : Opts) (trace : QueryTrace) (ended : ℕ) (e : Option QueryError) (rows : ℤ)
    (b : Option Bag)
    → is_some (canonical_query opts trace ended e rows b) ≡ is_some b
unfolding canonical_query Bag.add Bag.add_duration Bag.append_group
is_some-canonical_query opts trace ended e rows none =
    is_some-count_error e _ ∙ is_some-count_rows rows none
is_some-canonical_query opts trace ended e rows (some b) =
    is_some-count_error e _ ∙ is_some-count_rows rows _

module _ {D : Type 0} where
  pub set-has_bag : (k : Bytes) (v : Value) → Keeps has_bag (set {D = D} k v)
  unfolding Bag.set
  set-has_bag k v w = is_some-on_bag _ w.bag

  pub set-writer_of : (k : Bytes) (v : Value) → Keeps writer_of (set {D = D} k v)
  set-writer_of k v w = refl

module _ {D : Type 0} (env : Env D) where
  pub log-writer_of :
      (h : MultilineTextHandler) (id : Option Bytes) (level msg : Bytes) (xs : Attrs)
      → Keeps writer_of (log env h id level msg xs)
  unfolding log
  log-writer_of h id level msg xs w = refl

  pub log-bag :
      (h : MultilineTextHandler) (id : Option Bytes) (level msg : Bytes) (xs : Attrs)
      → Keeps (λ w. w.bag) (log env h id level msg xs)
  unfolding log
  log-bag h id level msg xs w = refl

  pub respond-bag : (code : ℕ) (body : Bytes) → Keeps (λ w. w.bag) (respond env code body)
  unfolding respond
  respond-bag code body w = refl

  module _ {A : Type 0} (h : MultilineTextHandler) (opts : Opts) (id : Option Bytes)
      (run : Bytes → List (Bytes × Value) → D → QueryEnd A × D) (sql : Bytes)
      (args : List (Bytes × Value)) where
    pub traced-writer_of : Keeps writer_of (traced env h opts id run sql args)
    unfolding traced trace_ends log
    traced-writer_of w = refl

    pub traced-has_bag : Keeps has_bag (traced env h opts id run sql args)
    unfolding traced trace_ends log
    traced-has_bag w = is_some-canonical_query opts _ _ _ _ w.bag
