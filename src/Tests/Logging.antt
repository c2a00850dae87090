-- ===== src/Tests/Logging.antt =====
-- The example logging on concrete inputs.
use mathlib.Core.Option
use go_backend_examples.Common.{
  ◌≤◌, ◌*◌, ◌+◌, length, insert, ◌==◌, ◌≡◌, refl, ap, true, false, if◌then◌else◌, Bool-cases, inl,
  inr, none, some, List, [], ◌∷◌, ◌++◌, Bytes, codes, pos, lookup, eq_bytes, eq_bytes_iff, map,
  subst, length, arith,
}
use go_backend_examples.Strconv.{itoa, format_int}
use go_backend_examples.Action.{ok}
use go_backend_examples.Action
use go_backend_examples.Log.Value.{Value, text, int, int64, group, no_attrs, attr, no_records}
use go_backend_examples.Log.Bag.{Bag, new_bag, attrs, attr_value, as_int64}
use go_backend_examples.Log.Bag.Ascending.{
  attrs-same, attrs-Ascending, Ascending, attr_keys, get_attr,
}
use go_backend_examples.Log.Bag.Locked.{
  SharedBag, waits, lock, load, store, unlock, move_first, move_second, begin, Turns, no_turn,
  later, Ends, Turns-Ends,
}
use go_backend_examples.Log.Bag.Calls.{Call, call_set, call_add, read, sum_from, written}
use go_backend_examples.Log.Multiline.{
  Format, Record, MultilineTextHandler, new_multiline_text_handler, handle, write_attrs,
  format_value, line_of, flatten_attrs, all_attrs,
}
use go_backend_examples.Log.Multiline.Lines.{text_of, qualified, leaves, handle_text}
use go_backend_examples.Log.Multiline.Quoted.{NoBreak, basic_text, format_value-NoBreak}
use go_backend_examples.Log.Tracer.{QueryArg, named_args, QueryTrace, logged_query, canonical_query}
use go_backend_examples.Log.Tracer.Redacts.{trace_of, tracers-SameVisible}
use go_backend_examples.Log.Tracer.Counts.{
  Query, Counted, records_from, trace_all, trace_all-new_bag,
}
use go_backend_examples.Log.World.{QueryEnd, Env}
use go_backend_examples.Log.Users.{opts, user_args, insert_sql, User, CreateUserCommand, Try, done}
use go_backend_examples.Log.Served.{serve, serve_logged}
use go_backend_examples.Log.Users.Worlds.{Unseen}
use go_backend_examples.Log.Users.Created.{hidden, some_hidden, user_args-SameVisible}
use go_backend_examples.Log.Users.Status.{status}
use go_backend_examples.Log.Users.Line.{EndsInLine, End, serve-Line}
use go_backend_examples.Log.Users.Line
use go_backend_examples.Log.Tracer.Cleaned.{OneLine, first_space, last_space, clean_sql-OneLine}
use go_backend_examples.Log.Tracer.{clean_sql}
use go_backend_examples.Log.Users.Private.{serve-Private}

abbrev drop_breaks : Bytes → Bytes
drop_breaks [] = []
drop_breaks (c ∷ s) = if c == b'\n' then drop_breaks s else c ∷ drop_breaks s

drop_breaks-NoBreak : (s : Bytes) → NoBreak (drop_breaks s)
drop_breaks-NoBreak [] = tt
drop_breaks-NoBreak (c ∷ s) = elim (Bool-cases (c == b'\n')) [
  | inl e ↦ rw e (drop_breaks-NoBreak s)
  | inr e ↦ rw e (ground (arith, e), drop_breaks-NoBreak s)
]

-- The formats of the tests.
abbrev plain_format : Format
plain_format = record {
  quote = drop_breaks;
  format_time = λ t. codes "now";
  format_duration = λ d. codes "0s";
  format_float = λ f. codes "0";
  sprint = λ v. codes "any";
}

-- What a writer in memory holds.
abbrev keep_text : Bytes → Bytes → Action.Result (Unit {0}) × Bytes
keep_text s log = (ok tt, log ++ s)

abbrev two_fields : Bag
two_fields = (codes "b", text (codes "x")) ∷ (codes "a", int64 (pos 1)) ∷ []

abbrev swapped_fields : Bag
swapped_fields = (codes "a", int64 (pos 1)) ∷ (codes "b", text (codes "x")) ∷ []

same_fields : (k : Bytes) → lookup k two_fields ≡ lookup k swapped_fields
unfolding lookup eq_bytes
same_fields k = elim (Bool-cases (eq_bytes (codes "b") k)) [
  | inl e ↦
      subst (λ x. lookup x two_fields ≡ lookup x swapped_fields) ((eq_bytes_iff (codes "b") k).0 e)
        refl
  | inr e ↦ rw e
]

attrs-same_example : attrs (some two_fields) ≡ attrs (some swapped_fields)
unfolding lookup eq_bytes
attrs-same_example =
    attrs-same two_fields swapped_fields (refl, (refl, tt)) (refl, (refl, tt)) same_fields

attrs-Ascending_example :
    Ascending (attr_keys (attrs (some two_fields)))
    × (get_attr (codes "a") (attrs (some two_fields))
        ≡ Option.map attr_value (lookup (codes "a") two_fields))
unfolding lookup eq_bytes
attrs-Ascending_example = attrs-Ascending two_fields (codes "a") (refl, (refl, tt))

abbrev add_one : Call
add_one = call_add (codes "a") (pos 1)

abbrev set_b : Call
set_b = call_set (codes "b") (text [])

-- One goroutine adds, and then another sets the other field.
abbrev added_bag : Bag
added_bag = insert (codes "a") (written add_one (lookup (codes "a") two_fields)) two_fields

abbrev both_done : SharedBag
both_done = record {
  mutex = false;
  bag = insert (codes "b") (written set_b (lookup (codes "b") added_bag)) added_bag;
  first = waits [];
  second = waits [];
}

all-Turns : Turns (begin two_fields (add_one ∷ []) (set_b ∷ [])) 8 both_done
all-Turns =
    later
      (later
        (later
          (later
            (later
              (later (later (later no_turn (move_first lock)) (move_first load)) (move_first store))
              (move_first unlock))
            (move_second lock))
          (move_second load))
        (move_second store))
      (move_second unlock)

Turns-Ends_example :
    (8 ≤ 4 * (length (add_one ∷ []) + length (set_b ∷ [])))
    × Ends
        (codes "a")
        (sum_from
          (codes "a")
          (sum_from (codes "a") (as_int64 (lookup (codes "a") two_fields)) (add_one ∷ []))
          (set_b ∷ []))
        both_done
unfolding eq_bytes
Turns-Ends_example =
    Turns-Ends (codes "a") two_fields (add_one ∷ []) (set_b ∷ []) (tt, tt) (refl, tt) all-Turns

abbrev grouped : MultilineTextHandler
grouped = record { own = attr (codes "n") (int (pos 1)) no_attrs; groups = codes "g" ∷ [] }

abbrev one_record : Record
one_record = record {
  created = 0;
  level = codes "INFO";
  message = codes "hello";
  attributes = attr (codes "u") (group (attr (codes "id") (text (codes "7")) no_attrs)) no_attrs;
}

-- The time, the level and the message are behind the group too.
handle_run :
    (handle plain_format keep_text grouped one_record []).1
    ≡ codes "g.time=now\ng.level=INFO\ng.msg=hello\ng.n=1\ng.u.id=7\n\n"
unfolding handle write_attrs format_value line_of flatten_attrs itoa format_int
handle_run = refl

handle_text_example :
    ((handle plain_format keep_text grouped one_record []).0 ≡ ok tt)
    × ((handle plain_format keep_text grouped one_record []).1
        ≡ []
          ++ (text_of plain_format keep_text
                (λ s. s)
                (map (qualified (codes "g" ∷ [])) (leaves (all_attrs grouped one_record)))
              ++ codes "\n"))
handle_text_example =
    handle_text plain_format keep_text (λ s. s) grouped one_record [] (λ s w. (refl, refl))

format_value-NoBreak_example : NoBreak (format_value plain_format (text (codes "a\nb")))
format_value-NoBreak_example =
    format_value-NoBreak plain_format drop_breaks-NoBreak (basic_text (codes "a\nb"))

abbrev ann : User
ann = record { user_id = codes "u1"; username = codes "ann" }

abbrev trace : List QueryArg → QueryTrace
trace args = trace_of opts insert_sql 0 1 none (pos 1) args

tracers-SameVisible_example :
    (logged_query opts (trace (named_args (user_args ann (codes "secret")) ∷ [])) 1 none (pos 1)
      ≡ logged_query opts (trace (named_args (user_args ann (codes "other")) ∷ [])) 1 none (pos 1))
    × (canonical_query opts
          (trace (named_args (user_args ann (codes "secret")) ∷ []))
          1
          none
          (pos 1)
          (some two_fields)
        ≡ canonical_query opts
            (trace (named_args (user_args ann (codes "other")) ∷ []))
            1
            none
            (pos 1)
            (some two_fields))
tracers-SameVisible_example =
    tracers-SameVisible opts insert_sql 0 1 none (pos 1) (user_args ann (codes "secret"))
      (user_args ann (codes "other")) (some two_fields) some_hidden
      (user_args-SameVisible ann (codes "secret") (codes "other"))

abbrev two_queries : List Query
two_queries =
    record { trace = trace []; ended = 1; error = none; rows = pos 1 }
    ∷ record {
      trace = trace [];
      ended = 2;
      error =
          some (record {
            message = codes "no";
            pg = none;
            deadline_exceeded = true;
            canceled = false;
          });
      rows = pos 0;
    }
    ∷ []

trace_all-new_bag_example :
    Counted opts 2 1
      (records_from opts no_records two_queries)
      (trace_all opts two_queries (some new_bag))
trace_all-new_bag_example = trace_all-new_bag opts two_queries (omega arith)

-- A log, and the arguments that the database has been given.
record Store : Type 0 where
  logged : Bytes
  given : List (List (Bytes × Value))

abbrev given_args : List (Bytes × Value) → Store → Store
given_args args d = record { logged = d.logged; given = args ∷ d.given }

abbrev ended : {A : Type 0} → A → QueryEnd A
ended a = record { failure = none; rows = pos 1; scan_failure = none; scanned = a }

abbrev test_env : Env Store
test_env = record {
  format = plain_format;
  now = λ d. (0, d);
  new_uuid = λ d. (codes "u1", d);
  write = λ s d. (ok tt, record { logged = d.logged ++ s; given = d.given });
  query_user = λ sql args d. (ended (codes "u1", codes "ann"), given_args args d);
  query_count = λ sql args d. (ended (pos 1), given_args args d);
  encode_user = λ id name. id ++ name;
  encode_error = λ s. s;
  accept = λ s sent. (length s, none);
}

abbrev SameLog : Store → Store → Type 0
SameLog d e = d.logged ≡ e.logged

test_env-Unseen : Unseen test_env SameLog hidden (λ d. d.logged)
test_env-Unseen = record {
  same_log = λ d e r. r;
  same_now = λ d e r. (refl, r);
  same_uuid = λ d e r. (refl, r);
  same_write = λ s d e r. (refl, ap (λ l. l ++ s) r);
  same_user = λ sql xs ys h d e r. (refl, r);
  same_count = λ sql xs d e r. (refl, r);
}

abbrev start : Store
start = record { logged = []; given = [] }

abbrev request : Bytes → Try CreateUserCommand
request password = done (record { username = codes "ann"; password = password })

abbrev served : Bytes → Store
served password =
    serve test_env new_multiline_text_handler [] (codes "POST") (codes "/users") (request password)
      start

abbrev served_logged : Bytes → Store
served_logged password =
    serve_logged test_env new_multiline_text_handler [] (codes "POST") (codes "/users")
      (request password) start

serve-Private_example :
    ((served (codes "secret")).logged ≡ (served (codes "other")).logged)
    × ((served_logged (codes "secret")).logged ≡ (served_logged (codes "other")).logged)
serve-Private_example =
    serve-Private test_env SameLog (λ d. d.logged) test_env-Unseen new_multiline_text_handler []
      (codes "POST") (codes "/users") (codes "ann") (codes "secret") (codes "other") start start
      refl refl

serve-Line_example :
    let v =
      Line.served test_env new_multiline_text_handler []
        (codes "POST")
        (codes "/users")
        (request (codes "secret"))
        start in
    (served (codes "secret") ≡ v.outside)
    × EndsInLine test_env new_multiline_text_handler v
    × (read (codes "http.status") v.bag ≡ some (int (pos (status v))))
    × End (request (codes "secret")) v
serve-Line_example =
    serve-Line test_env new_multiline_text_handler [] (codes "POST") (codes "/users")
      (request (codes "secret")) start

clean_sql-OneLine_example :
    OneLine (clean_sql insert_sql)
    × (first_space (clean_sql insert_sql) ≡ false)
    × (last_space (clean_sql insert_sql) ≡ false)
    × (clean_sql (clean_sql insert_sql) ≡ clean_sql insert_sql)
clean_sql-OneLine_example = clean_sql-OneLine insert_sql
