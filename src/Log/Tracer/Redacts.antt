-- ===== src/Log/Tracer/Redacts.antt =====
-- That a redacted argument does not reach a log.
use mathlib.Core.Option
use go_backend_examples.Common.{
  ℕ, ◌≡◌, ◌≢◌, refl, ap, false, if◌then◌else◌, Bool-cases, inl, inr, Option, List, [], ◌∷◌, Bytes,
  codes, ℤ, pos, suc, eq_bytes, eq_bytes_iff, lookup, length,
}
use go_backend_examples.Log.Value.{Value, no_attrs, attr, int}
use go_backend_examples.Log.Bag.{Bag}
use go_backend_examples.Log.Tracer.{
  QueryArg, named_args, plain_arg, QueryError, Opts, QueryTrace, contains_key, redacted,
  redact_named_args, redact_args, convert_args, db_attrs, db_log, logged_query, canonical_query,
}

-- After redaction a hidden key that is there reads as redacted, and every other key as before.
pub lookup-redact_named_args :
    (k : Bytes) (hidden : List Bytes) (args : List (Bytes × Value))
    → lookup k (redact_named_args hidden args) ≡ (
        if contains_key k hidden then Option.map (λ _. redacted) (lookup k args) else lookup k args)
unfolding lookup redact_named_args
lookup-redact_named_args k hidden [] = elim (Bool-cases (contains_key k hidden)) [
  | inl e ↦ rw e
  | inr e ↦ rw e
]
lookup-redact_named_args k hidden ((j, v) ∷ args) = elim (Bool-cases (eq_bytes j k)) [
  | inl e ↦ elim (Bool-cases (contains_key k hidden)) [
    | inl h ↦ rw (e, (eq_bytes_iff j k).0 e, h)
    | inr h ↦ rw (e, (eq_bytes_iff j k).0 e, h)
  ]
  | inr e ↦ rw (e, lookup-redact_named_args k hidden args)
]

-- Two maps of arguments with the same keys, and the same values but for those of the hidden keys.
abbrev pub SameVisible : List Bytes → List (Bytes × Value) → List (Bytes × Value) → Type 0
SameVisible hidden [] [] = Unit
SameVisible hidden ((j, v) ∷ xs) ((k, w) ∷ ys) =
    (j ≡ k) × (contains_key j hidden ≡ false → v ≡ w) × SameVisible hidden xs ys
SameVisible hidden _ _ = ⊥

redact-SameVisible :
    (hidden : List Bytes) (xs ys : List (Bytes × Value))
    → SameVisible hidden xs ys
    → redact_named_args hidden xs ≡ redact_named_args hidden ys
unfolding redact_named_args
redact-SameVisible hidden [] [] h = refl
redact-SameVisible hidden [] ((k, w) ∷ ys) h = elim h [ ]
redact-SameVisible hidden ((j, v) ∷ xs) [] h = elim h [ ]
redact-SameVisible hidden ((j, v) ∷ xs) ((k, w) ∷ ys) (e, same, h) =
    elim (Bool-cases (contains_key j hidden)) [
      | inl p ↦ rw (← e, p, redact-SameVisible hidden xs ys h)
      | inr p ↦ rw (← e, p, same p, redact-SameVisible hidden xs ys h)
    ]

redact_args-SameVisible :
    (hidden : List Bytes) (xs ys : List (Bytes × Value))
    → hidden ≢ []
    → SameVisible hidden xs ys
    → redact_args hidden (named_args xs ∷ []) ≡ redact_args hidden (named_args ys ∷ [])
unfolding redact_args
redact_args-SameVisible [] xs ys some_hidden h = absurd (some_hidden refl)
redact_args-SameVisible (k ∷ ks) xs ys some_hidden h =
    ap (λ args. named_args args ∷ []) (redact-SameVisible (k ∷ ks) xs ys h)

convert_many :
    (hidden : List Bytes) (x y : QueryArg) (xs : List QueryArg)
    → convert_args (redact_args hidden (x ∷ y ∷ xs))
      ≡ attr (codes "args_count") (int (pos (suc (suc (length xs))))) no_attrs
unfolding convert_args redact_args
convert_many [] (named_args m) y xs = refl
convert_many [] (plain_arg w) y xs = refl
convert_many (k ∷ ks) (named_args m) y xs = refl
convert_many (k ∷ ks) (plain_arg w) y xs = refl

module _ (opts : Opts) (sql : Bytes) (started ended : ℕ) (error : Option QueryError)
    (rows : ℤ) where
  abbrev pub trace_of : List QueryArg → QueryTrace
  trace_of args = record { sql = sql; args = args; started_at = started }

  -- With at least one key to redact, neither tracer's log of a query with named arguments depends on
  -- the values of the redacted keys: for two maps of arguments that agree on all else, the record of
  -- the logging tracer is the same, and so is the bag that the canonical tracer leaves.
  pub tracers-SameVisible :
      (xs ys : List (Bytes × Value)) (bag : Option Bag)
      → opts.redact_keys ≢ []
      → SameVisible opts.redact_keys xs ys
      → (logged_query opts (trace_of (named_args xs ∷ [])) ended error rows
          ≡ logged_query opts (trace_of (named_args ys ∷ [])) ended error rows)
        × (canonical_query opts (trace_of (named_args xs ∷ [])) ended error rows bag
            ≡ canonical_query opts (trace_of (named_args ys ∷ [])) ended error rows bag)
  unfolding logged_query canonical_query db_log
  tracers-SameVisible xs ys bag some_hidden h =
      let same = redact_args-SameVisible opts.redact_keys xs ys some_hidden h in (rw same, rw same)

  -- Of two or more arguments the canonical tracer logs nothing but their number, whatever they are.
  pub canonical_query_positional :
      (x y u v : QueryArg) (xs us : List QueryArg) (bag : Option Bag)
      → length xs ≡ length us
      → canonical_query opts (trace_of (x ∷ y ∷ xs)) ended error rows bag
        ≡ canonical_query opts (trace_of (u ∷ v ∷ us)) ended error rows bag
  unfolding canonical_query db_attrs db_log
  canonical_query_positional x y u v xs us bag h =
      rw (convert_many opts.redact_keys x y xs, convert_many opts.redact_keys u v us, h)
