-- ===== src/Log/Tracer.antt =====
-- logging/postgres/tracer.go: what the two tracers log of a query.
pub mod Redacts
pub mod Counts
pub mod Cleaned
use go_backend_examples.Common.{
  ℕ, suc, ◌-◌, ◌==◌, ◌≤◌, leb, Bool, true, false, ◌||◌, ◌&&◌, if◌then◌else◌, Option, none, some,
  List, [], ◌∷◌, ◌++◌, map, Bytes, codes, length, eq_bytes, ℤ, pos, negsuc,
}
use go_backend_examples.Log.Value.{
  Value, text, int, int64, duration, slice, Values, no_values, value, fields, group, log_valuer,
  failure, Attrs, no_attrs, attr, append_attrs,
}
use go_backend_examples.Log.Bag.{Bag, append_group, add, add_duration}

-- An argument of a statement: pgx.NamedArgs, a map, or anything else.
pub data QueryArg : Type 0 where
  named_args : List (Bytes × Value) → QueryArg
  plain_arg : Value → QueryArg

-- *pgconn.PgError.
pub record PgError : Type 0 where
  pub code : Bytes
  pub severity : Bytes
  pub table_name : Bytes
  pub constraint_name : Bytes
  pub detail : Bytes
  pub hint : Bytes

-- An error of a query: its text, what errors.As finds in its chain, and what errors.Is says of it.
pub record QueryError : Type 0 where
  pub message : Bytes
  pub pg : Option PgError
  pub deadline_exceeded : Bool
  pub canceled : Bool

pub record DbLog : Type 0 where
  pub operation : Bytes
  pub query : Bytes
  pub args : List QueryArg
  pub elapsed : ℤ
  pub error : Option QueryError
  pub rows_affected : ℤ
  pub log_key : Bytes

pub record Opts : Type 0 where
  pub log_key : Bytes
  pub redact_keys : List Bytes

-- queryTrace, which TraceQueryStart leaves in the context.
pub record QueryTrace : Type 0 where
  pub sql : Bytes
  pub args : List QueryArg
  pub started_at : ℕ

abbrev pub contains_key : Bytes → List Bytes → Bool
contains_key k [] = false
contains_key k (j ∷ js) = eq_bytes j k || contains_key k js

-- RedactKeys; the set as a list.
abbrev pub redact_keys : List Bytes → List Bytes
redact_keys [] = []
redact_keys ([] ∷ ks) = redact_keys ks
redact_keys ((c ∷ k) ∷ ks) = (c ∷ k) ∷ redact_keys ks

abbrev pub redacted : Value
redacted = text (codes "[REDACTED]")

unfoldable pub redact_named_args : List Bytes → List (Bytes × Value) → List (Bytes × Value)
redact_named_args hidden [] = []
redact_named_args hidden ((k, v) ∷ args) =
    (k, (if contains_key k hidden then redacted else v)) ∷ redact_named_args hidden args

unfoldable pub redact_args : List Bytes → List QueryArg → List QueryArg
unfolding redact_named_args
redact_args [] args = args
redact_args (k ∷ ks) (named_args args ∷ []) = named_args (redact_named_args (k ∷ ks) args) ∷ []
redact_args (k ∷ ks) args = args

-- map[string]any(namedArgs)
abbrev pub to_attrs : List (Bytes × Value) → Attrs
to_attrs [] = no_attrs
to_attrs ((k, v) ∷ args) = attr k v (to_attrs args)

-- convertArgs, and its attribute where it has a key.
unfoldable pub convert_args : List QueryArg → Attrs
convert_args [] = no_attrs
convert_args (named_args args ∷ []) = attr (codes "args") (fields (to_attrs args)) no_attrs
convert_args args = attr (codes "args_count") (int (pos (length args))) no_attrs

-- spaceReplacer, and strings.TrimSpace on ASCII text.
abbrev pub replace_spaces : Bytes → Bytes
replace_spaces [] = []
replace_spaces (c ∷ s) =
    if c == b'\n'
    then b' ' ∷ replace_spaces s
    else if c == b'\t'
    then replace_spaces s
    else c ∷ replace_spaces s

abbrev pub is_space : ℕ → Bool
is_space c = c == b' ' || leb 9 c && leb c 13

abbrev pub trim_left : Bytes → Bytes
trim_left [] = []
trim_left (c ∷ s) = if is_space c then trim_left s else c ∷ s

-- A byte before the rest, that is dropped if it is a space and nothing comes behind it.
abbrev pub keep : ℕ → Bytes → Bytes
keep c [] = if is_space c then [] else c ∷ []
keep c (d ∷ s) = c ∷ (d ∷ s)

abbrev pub trim_right : Bytes → Bytes
trim_right [] = []
trim_right (c ∷ s) = keep c (trim_right s)

unfoldable pub clean_sql : Bytes → Bytes
clean_sql sql = trim_right (trim_left (replace_spaces sql))

abbrev pub text_attr : Bytes → Bytes → Attrs
text_attr key s = attr key (text s) no_attrs

-- if s != "" { attrs = append(attrs, slog.String(key, s)) }
abbrev pub unless_empty : Bytes → Bytes → Attrs
unless_empty key [] = no_attrs
unless_empty key (c ∷ s) = text_attr key (c ∷ s)

abbrev pub pg_attrs : PgError → Attrs
pg_attrs e = attr (codes "code") (text e.code) (
    attr (codes "severity") (text e.severity) (
      attr (codes "table") (text e.table_name) (
        attr (codes "constraint") (text e.constraint_name) (
          append_attrs (unless_empty (codes "detail") e.detail)
            (unless_empty (codes "hint") e.hint)))))

abbrev pub context_attrs : Bool → Bool → Attrs
context_attrs true canceled = text_attr (codes "type") (codes "timeout")
context_attrs false true = text_attr (codes "type") (codes "canceled")
context_attrs false false = no_attrs

abbrev pub cause_attrs : Option PgError → QueryError → Attrs
cause_attrs (some e) w = pg_attrs e
cause_attrs none w = context_attrs w.deadline_exceeded w.canceled

-- pgErrorWrapper.LogValue.
unfoldable pub error_value : QueryError → Value
error_value w = group (attr (codes "message") (text w.message) (cause_attrs w.pg w))

abbrev pub error_attrs : Option QueryError → Attrs
error_attrs none = no_attrs
error_attrs (some e) =
    attr (codes "error")
      (log_valuer (attr (codes "err") (failure e.message) no_attrs) (error_value e)) no_attrs

abbrev pub rows_attrs : ℤ → Attrs
rows_attrs (pos (suc n)) = attr (codes "rows") (int64 (pos (suc n))) no_attrs
rows_attrs _ = no_attrs

-- DBLog.Attrs.
unfoldable pub db_attrs : DbLog → Attrs
unfolding clean_sql convert_args error_value
db_attrs d = attr (codes "op") (text d.operation) (
    attr (codes "duration") (duration d.elapsed) (
      attr (codes "sql") (text (clean_sql d.query)) (
        append_attrs (convert_args d.args)
          (append_attrs (error_attrs d.error) (rows_attrs d.rows_affected)))))

-- What both tracers make of the end of a query: pgx hands over the error and the rows affected.
unfoldable pub db_log : Bytes → List Bytes → QueryTrace → ℕ → Option QueryError → ℤ → DbLog
unfolding redact_args
db_log key hidden trace ended error rows = record {
  operation = codes "query";
  query = trace.sql;
  args = redact_args hidden trace.args;
  elapsed = pos (ended - trace.started_at);
  error = error;
  rows_affected = rows;
  log_key = key;
}

abbrev pub default_log_key : Bytes
default_log_key = codes "db"

-- NewLoggingQueryTracer: the key of the options, or the default.
abbrev pub log_key_of : Bytes → Bytes
log_key_of [] = default_log_key
log_key_of (c ∷ k) = c ∷ k

abbrev pub message : Bytes
message = codes "postgres/query"

-- The fields of a DBLog, all but its arguments being plain.
abbrev pub arg_values : List QueryArg → Values
arg_values [] = no_values
arg_values (named_args args ∷ rest) = value (fields (to_attrs args)) (arg_values rest)
arg_values (plain_arg v ∷ rest) = value v (arg_values rest)

abbrev pub db_fields : DbLog → Attrs
db_fields d = attr (codes "Operation") (text d.operation) (
    attr (codes "Query") (text d.query) (
      attr (codes "Args") (slice (arg_values d.args)) (
        attr (codes "Duration") (duration d.elapsed) (
          attr (codes "RowsAffected") (int64 d.rows_affected)
            (text_attr (codes "LogKey") d.log_key)))))

-- LoggingQueryTracer.TraceQueryEnd: the attribute of the record that it logs with `message`.
unfoldable pub logged_query : Opts → QueryTrace → ℕ → Option QueryError → ℤ → Attrs
unfolding db_attrs db_log
logged_query opts trace ended error rows =
    let d = db_log (log_key_of opts.log_key) opts.redact_keys trace ended error rows in
    attr d.log_key (log_valuer (db_fields d) (group (db_attrs d))) no_attrs

abbrev pub count_rows : ℤ → Option Bag → Option Bag
count_rows (pos (suc n)) bag = add (codes "db.rows_affected") (pos (suc n)) bag
count_rows _ bag = bag

abbrev pub count_error : Option QueryError → Option Bag → Option Bag
count_error none bag = bag
count_error (some e) bag = add (codes "db.error_count") (pos 1) bag

-- CanonicalQueryTracer.TraceQueryEnd.
unfoldable pub canonical_query :
    Opts → QueryTrace → ℕ → Option QueryError → ℤ → Option Bag → Option Bag
unfolding db_attrs db_log
canonical_query opts trace ended error rows bag =
    let d = db_log default_log_key opts.redact_keys trace ended error rows in
    let queries = append_group (codes "db.queries") (db_attrs d) bag in
    let counted = add (codes "db.query_count") (pos 1) queries in
    let timed = add_duration (codes "db.duration") d.elapsed counted in
    count_error error (count_rows rows timed)
