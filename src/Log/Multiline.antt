-- ===== src/Log/Multiline.antt =====
-- logging/slogctx: the handler that writes a record as lines (multiline_text_handler.go), and the one
-- before it that adds the request's id (handler.go, and logging/xctx/values.go).
pub mod Lines
pub mod Quoted
use go_backend_examples.Common.{
  ℕ, ℤ, Bool, true, false, ◌||◌, ◌==◌, if◌then◌else◌, Option, none, some, List, [], ◌∷◌, ◌++◌,
  Bytes, codes, eq_bytes,
}
use go_backend_examples.Strconv.{itoa, format_int}
use go_backend_examples.Action.{Action, Result, ok, err, pure, wrapped, ◌>>◌}
use go_backend_examples.Log.Value.{
  Value, nil, text, failure, int, int64, uint64, float64, time, duration, boolean, slice, records,
  fields, group, log_valuer, Attrs, no_attrs, attr, append_attrs,
}

-- strconv.Quote, the formats of times, durations and floats, and fmt.Sprint.
pub record Format : Type 0 where
  pub quote : Bytes → Bytes
  pub format_time : ℕ → Bytes
  pub format_duration : ℤ → Bytes
  pub format_float : ℕ → Bytes
  pub sprint : Value → Bytes

-- A slog.Record.
pub record Record : Type 0 where
  pub created : ℕ
  pub level : Bytes
  pub message : Bytes
  pub attributes : Attrs

-- The writer is part of the world of `write`.
pub record MultilineTextHandler : Type 0 where
  pub own : Attrs
  pub groups : List Bytes

abbrev pub new_multiline_text_handler : MultilineTextHandler
new_multiline_text_handler = record { own = no_attrs; groups = [] }

abbrev pub with_attrs : Attrs → MultilineTextHandler → MultilineTextHandler
with_attrs xs h = record { own = append_attrs h.own xs; groups = h.groups }

abbrev pub with_group : Bytes → MultilineTextHandler → MultilineTextHandler
with_group name h = record { own = h.own; groups = h.groups ++ (name ∷ []) }

-- strings.Join(keys, ".")
abbrev pub join_from : Bytes → List Bytes → Bytes
join_from k [] = k
join_from k (j ∷ ks) = k ++ (b'.' ∷ join_from j ks)

abbrev pub join : List Bytes → Bytes
join [] = []
join (k ∷ ks) = join_from k ks

-- flattenAttr and flattenAttrs.
unfoldable mutual
  pub flatten_attr : List Bytes → Bytes → Value → List (Bytes × Value)
  flatten_attr groups key (log_valuer o v) = flatten_attr groups key v
  flatten_attr groups key (group xs) = flatten_attrs (groups ++ (key ∷ [])) xs
  flatten_attr groups key v = (join (groups ++ (key ∷ [])), v) ∷ []

  pub flatten_attrs : List Bytes → Attrs → List (Bytes × Value)
  flatten_attrs groups no_attrs = []
  flatten_attrs groups (attr k v xs) = flatten_attr groups k v ++ flatten_attrs groups xs

-- strings.ContainsAny(value, " \t\n\r\"=")
unfoldable pub contains_special : Bytes → Bool
contains_special [] = false
contains_special (c ∷ s) =
    c == b' '
    || c == b'\t'
    || c == b'\n'
    || c == b'\r'
    || c == b'"'
    || c == b'='
    || contains_special s

abbrev pub is_empty : Bytes → Bool
is_empty [] = true
is_empty (c ∷ s) = false

-- The attributes of a record in the order in which Handle writes them.
abbrev pub all_attrs : MultilineTextHandler → Record → Attrs
all_attrs h r = attr (codes "time") (time r.created) (
    attr (codes "level") (text r.level)
      (attr (codes "msg") (text r.message) (append_attrs h.own r.attributes)))

-- xctx.RequestID: an id that is not empty.
abbrev pub request_id : Option Bytes → Option Bytes
request_id none = none
request_id (some s) = if is_empty s then none else some s

abbrev pub add_request_id : Option Bytes → Record → Record
add_request_id none r = r
add_request_id (some s) r = record {
  created = r.created;
  level = r.level;
  message = r.message;
  attributes = append_attrs r.attributes (attr (codes "request_id") (text s) no_attrs);
}

module _ (format : Format) where
  unfoldable pub format_string : Bytes → Bytes
  unfolding contains_special
  format_string s = if is_empty s || contains_special s then format.quote s else s

  abbrev pub format_bool : Bool → Bytes
  format_bool true = codes "true"
  format_bool false = codes "false"

  -- formatValue, for a value that is resolved.
  unfoldable pub format_value : Value → Bytes
  unfolding format_string
  format_value (text s) = format_string s
  format_value (time t) = format.format_time t
  format_value (duration d) = format.format_duration d
  format_value (boolean b) = format_bool b
  format_value (int n) = format_int n
  format_value (int64 n) = format_int n
  format_value (uint64 n) = itoa n
  format_value (float64 f) = format.format_float f
  format_value v = format.sprint v

  unfoldable pub line_of : Bytes × Value → Bytes
  unfolding format_value
  line_of (key, v) = key ++ (b'=' ∷ (format_value v ++ codes "\n"))

  module _ {W : Type 0} (write : Bytes → Action W (Unit {0})) where
    unfoldable pub write_attrs : List (Bytes × Value) → Action W (Unit {0})
    unfolding line_of
    write_attrs [] = pure tt
    write_attrs (a ∷ rest) = wrapped "write log attr" (write (line_of a)) >> write_attrs rest

    -- MultilineTextHandler.Handle.
    unfoldable pub handle : MultilineTextHandler → Record → Action W (Unit {0})
    handle h r =
        write_attrs (flatten_attrs h.groups (all_attrs h r))
        >> wrapped "write log record separator" (write (codes "\n"))

    -- Handler.Handle, for the id that the context carries.
    unfoldable pub handle_with_id :
        Option Bytes → MultilineTextHandler → Record → Action W (Unit {0})
    unfolding handle
    handle_with_id carried h r =
        wrapped "handle log record" (handle h (add_request_id (request_id carried) r))
