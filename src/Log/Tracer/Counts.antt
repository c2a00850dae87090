-- ===== src/Log/Tracer/Counts.antt =====
-- What the canonical tracer has counted after some queries.
use go_backend_examples.Common.{
  ℕ, zero, suc, ◌+◌, ◌<◌, ◌≤◌, ◌≡◌, refl, ap, ◌∙◌, subst, false, Option, none, some, List, [], ◌∷◌,
  ◌++◌, ◌-◌, Bytes, codes, length, All, ℤ, pos, negsuc, eq_bytes, lookup, lookup-insert, add_int64,
  add_int64-pos, int_bound, arith,
}
use go_backend_examples.Log.Value.{Attrs, Records, no_records, add_record}
use go_backend_examples.Log.Bag.{Bag, new_bag, as_int64, as_records, append_group}
use go_backend_examples.Log.Bag.Calls.{
  Call, call_add, call_add_duration, call_append_group, key_of, run, read, IsAdd, sum_from,
  as_int64-run, read-run_other, run-some,
}
use go_backend_examples.Log.Tracer.{
  QueryError, Opts, QueryTrace, db_log, db_attrs, canonical_query, default_log_key, count_rows,
  count_error,
}

-- The end of a query as pgx reports it.
pub record Query : Type 0 where
  pub trace : QueryTrace
  pub ended : ℕ
  pub error : Option QueryError
  pub rows : ℤ

abbrev pub failed : Option QueryError → ℕ
failed none = 0
failed (some e) = 1

failed_le : (o : Option QueryError) (e n : ℕ) → e ≤ n → failed o + e ≤ n + 1
failed_le none e n h = omega arith
failed_le (some x) e n h = omega arith

module _ (opts : Opts) where
  abbrev pub attrs_of_query : Query → Attrs
  attrs_of_query q =
      db_attrs (db_log default_log_key opts.redact_keys q.trace q.ended q.error q.rows)

  abbrev pub trace_end : Query → Option Bag → Option Bag
  trace_end q = canonical_query opts q.trace q.ended q.error q.rows

  abbrev rows_calls : ℤ → List Call
  rows_calls (pos (suc n)) = call_add (codes "db.rows_affected") (pos (suc n)) ∷ []
  rows_calls _ = []

  abbrev error_calls : Option QueryError → List Call
  error_calls none = []
  error_calls (some e) = call_add (codes "db.error_count") (pos 1) ∷ []

  abbrev later_calls : Query → List Call
  later_calls q =
      call_add (codes "db.query_count") (pos 1)
      ∷ call_add_duration (codes "db.duration") (pos (q.ended - q.trace.started_at))
      ∷ (rows_calls q.rows ++ error_calls q.error)

  -- The end of a query as calls on the bag.
  calls_of : Query → List Call
  calls_of q = call_append_group (codes "db.queries") (attrs_of_query q) ∷ later_calls q

  run_tail :
      (r : ℤ) (e : Option QueryError) (bag : Option Bag)
      → count_error e (count_rows r bag) ≡ run (rows_calls r ++ error_calls e) bag
  run_tail (pos zero) none bag = refl
  run_tail (pos zero) (some e) bag = refl
  run_tail (pos (suc n)) none bag = refl
  run_tail (pos (suc n)) (some e) bag = refl
  run_tail (negsuc n) none bag = refl
  run_tail (negsuc n) (some e) bag = refl

  trace_end-run : (q : Query) (bag : Option Bag) → trace_end q bag ≡ run (calls_of q) bag
  unfolding canonical_query calls_of
  trace_end-run q bag = run_tail q.rows q.error _

  -- The calls behind the first three touch neither the records nor the number of queries.
  tail_other :
      (k : Bytes) (r : ℤ) (e : Option QueryError)
      → eq_bytes (codes "db.rows_affected") k ≡ false
      → eq_bytes (codes "db.error_count") k ≡ false
      → All (λ c. eq_bytes (key_of c) k ≡ false) (rows_calls r ++ error_calls e)
  tail_other k (pos zero) none h g = tt
  tail_other k (pos zero) (some e) h g = (g, tt)
  tail_other k (pos (suc n)) none h g = (h, tt)
  tail_other k (pos (suc n)) (some e) h g = (h, (g, tt))
  tail_other k (negsuc n) none h g = tt
  tail_other k (negsuc n) (some e) h g = (g, tt)

  tail-IsAdd :
      (k : Bytes) (r : ℤ) (e : Option QueryError) → All (IsAdd k) (rows_calls r ++ error_calls e)
  tail-IsAdd k (pos zero) none = tt
  tail-IsAdd k (pos zero) (some e) = (tt, tt)
  tail-IsAdd k (pos (suc n)) none = (tt, tt)
  tail-IsAdd k (pos (suc n)) (some e) = (tt, (tt, tt))
  tail-IsAdd k (negsuc n) none = tt
  tail-IsAdd k (negsuc n) (some e) = (tt, tt)

  sum_tail_other :
      (k : Bytes) (x : ℤ) (r : ℤ) (e : Option QueryError)
      → eq_bytes (codes "db.rows_affected") k ≡ false
      → eq_bytes (codes "db.error_count") k ≡ false
      → sum_from k x (rows_calls r ++ error_calls e) ≡ x
  sum_tail_other k x (pos zero) none h g = refl
  sum_tail_other k x (pos zero) (some e) h g = rw g
  sum_tail_other k x (pos (suc n)) none h g = rw h
  sum_tail_other k x (pos (suc n)) (some e) h g = rw (h, g)
  sum_tail_other k x (negsuc n) none h g = refl
  sum_tail_other k x (negsuc n) (some e) h g = rw g

  abbrev error_delta : Option QueryError → ℤ → ℤ
  error_delta none x = x
  error_delta (some e) x = add_int64 x (pos 1)

  sum_tail_errors :
      (x : ℤ) (r : ℤ) (e : Option QueryError)
      → sum_from (codes "db.error_count") x (rows_calls r ++ error_calls e) ≡ error_delta e x
  unfolding eq_bytes
  sum_tail_errors x (pos zero) none = refl
  sum_tail_errors x (pos zero) (some e) = refl
  sum_tail_errors x (pos (suc n)) none = refl
  sum_tail_errors x (pos (suc n)) (some e) = refl
  sum_tail_errors x (negsuc n) none = refl
  sum_tail_errors x (negsuc n) (some e) = refl

  query_count-trace_end :
      (q : Query) (bag : Bag)
      → as_int64 (read (codes "db.query_count") (trace_end q (some bag)))
        ≡ add_int64 (as_int64 (lookup (codes "db.query_count") bag)) (pos 1)
  unfolding eq_bytes calls_of
  query_count-trace_end q bag =
      ap (λ b. as_int64 (read (codes "db.query_count") b)) (trace_end-run q (some bag))
      ∙ as_int64-run (calls_of q) (codes "db.query_count") bag
          (refl, (tt, (refl, tail-IsAdd _ q.rows q.error)))
      ∙ sum_tail_other (codes "db.query_count") _ q.rows q.error refl refl

  error_count-trace_end :
      (q : Query) (bag : Bag)
      → as_int64 (read (codes "db.error_count") (trace_end q (some bag)))
        ≡ error_delta q.error (as_int64 (lookup (codes "db.error_count") bag))
  unfolding eq_bytes calls_of
  error_count-trace_end q bag =
      ap (λ b. as_int64 (read (codes "db.error_count") b)) (trace_end-run q (some bag))
      ∙ as_int64-run (calls_of q) (codes "db.error_count") bag
          (refl, (tt, (refl, tail-IsAdd _ q.rows q.error)))
      ∙ sum_tail_errors _ q.rows q.error

  -- Of the calls of a query only the first writes the records.
  records-trace_end :
      (q : Query) (bag : Bag)
      → as_records (read (codes "db.queries") (trace_end q (some bag)))
        ≡ add_record (as_records (lookup (codes "db.queries") bag)) (attrs_of_query q)
  unfolding eq_bytes calls_of append_group
  records-trace_end q bag =
      ap (λ b. as_records (read (codes "db.queries") b)) (trace_end-run q (some bag))
      ∙ ap as_records (
          read-run_other (later_calls q) (codes "db.queries") _
            (refl, (refl, tail_other _ q.rows q.error refl refl))
          ∙ lookup-insert (codes "db.queries") (codes "db.queries") _ bag)

  pub trace_all : List Query → Option Bag → Option Bag
  trace_all [] bag = bag
  trace_all (q ∷ qs) bag = trace_all qs (trace_end q bag)

  abbrev pub failures : List Query → ℕ
  failures [] = 0
  failures (q ∷ qs) = failed q.error + failures qs

  abbrev pub records_from : Records → List Query → Records
  records_from rs [] = rs
  records_from rs (q ∷ qs) = records_from (add_record rs (attrs_of_query q)) qs

  -- What the bag says after `n` queries of which `e` failed.
  abbrev pub Counted : ℕ → ℕ → Records → Option Bag → Type 0
  Counted n e rs bag =
      (as_int64 (read (codes "db.query_count") bag) ≡ pos n)
      × (as_int64 (read (codes "db.error_count") bag) ≡ pos e)
      × (as_records (read (codes "db.queries") bag) ≡ rs)

  error_delta-pos :
      (o : Option QueryError) (e : ℕ)
      → e + 1 < int_bound
      → error_delta o (pos e) ≡ pos (failed o + e)
  error_delta-pos none e h = ap pos (omega arith)
  error_delta-pos (some x) e h = add_int64-pos e 1 h ∙ ap pos (omega arith)

  trace_end-Counted :
      (q : Query) (n e : ℕ) (rs : Records) (bag : Bag)
      → n + 1 < int_bound
      → e ≤ n
      → Counted n e rs (some bag)
      → Counted
          (n + 1)
          (failed q.error + e)
          (add_record rs (attrs_of_query q))
          (trace_end q (some bag))
  trace_end-Counted q n e rs bag h le (hn, he, hr) = (
    query_count-trace_end q bag ∙ ap (λ x. add_int64 x (pos 1)) hn ∙ add_int64-pos n 1 h,
    error_count-trace_end q bag
        ∙ ap (error_delta q.error) he
        ∙ error_delta-pos q.error e (omega arith),
    records-trace_end q bag ∙ ap (λ x. add_record x (attrs_of_query q)) hr,
  )

  trace_all-Counted :
      (qs : List Query) (n e m f : ℕ) (rs : Records) (bag : Bag)
      → n + length qs < int_bound
      → e ≤ n
      → m ≡ n + length qs
      → f ≡ failures qs + e
      → Counted n e rs (some bag)
      → Counted m f (records_from rs qs) (trace_all qs (some bag))
  unfolding trace_all
  trace_all-Counted [] n e m f rs bag h le em ef (hn, he, hr) =
      (hn ∙ ap pos (omega arith), he ∙ ap pos (omega arith), hr)
  trace_all-Counted (q ∷ qs) n e m f rs bag h le em ef c =
      let (b, same) = run-some (calls_of q) bag in
      let here : trace_end q (some bag) ≡ some b = trace_end-run q (some bag) ∙ same in
      let one = trace_end-Counted q n e rs bag (omega arith) le c in
      let next : Counted (n + 1) (failed q.error + e) (add_record rs (attrs_of_query q)) (some b) =
        subst (Counted (n + 1) (failed q.error + e) (add_record rs (attrs_of_query q))) here one in
      rw here (
        trace_all-Counted qs (n + 1) (failed q.error + e) m f (add_record rs (attrs_of_query q)) b
          (omega arith) (failed_le q.error e n le) (omega arith) (omega arith) next)

  -- The canonical line of a request counts its queries right: after the ends of any queries, fewer than
  -- 2 ^ 63, on a new bag, db.query_count is their number, db.error_count the number of those that
  -- failed, and db.queries holds the record of each, in their order.
  pub trace_all-new_bag :
      (qs : List Query)
      → length qs < int_bound
      → Counted (length qs) (failures qs) (records_from no_records qs) (trace_all qs (some new_bag))
  unfolding lookup
  trace_all-new_bag qs h =
      trace_all-Counted qs 0 0 (length qs) (failures qs) no_records new_bag (omega arith)
        (omega arith) (omega arith) (omega arith) (refl, refl, refl)
