-- ===== src/Resp3/Tagged.antt =====
-- enums/tagged_union/resp3.go: the struct `Value` with its `Kind`, the constructors, `Serialize` and
-- the parser.
pub mod Kind
use go_backend_examples.Common.{
  ℕ, zero, suc, ◌+◌, Bool, true, false, Option, none, some, [], ◌∷◌, ◌++◌, Bytes, codes, length,
  get_or, leb, ◌==◌, if◌then◌else◌, ℤ, pos, eq_bytes,
}
use go_backend_examples.Strconv.{itoa, format_int, parse_int}
use go_backend_examples.Resp3.Outcome.{
  Outcome, ok, err, out_of_fuel, map_ok, incomplete, invalid_integer, invalid_boolean,
  invalid_verbatim, unknown_type, bind,
}
use go_backend_examples.Resp3.Double.{FloatText, format_double, parse_double}
use go_backend_examples.Resp3.Reader.{
  Parser, M, pure, fail, ◌>>=◌, ◌>>◌, crlf, read_line, read_count, read_bytes, make_slice,
  cut_colon,
}
use go_backend_examples.Resp3.Sealed.{Limits}
use Kind.{
  kind_simple_string, kind_error, kind_integer, kind_big_number, kind_double, kind_boolean,
  kind_null, kind_bulk_string, kind_blob_error, kind_verbatim_string, kind_array, kind_set,
  kind_push, kind_map, kind_attribute, other,
}

-- The fields of the struct in their order: Kind, Str, Int, Float, Bool, Format, Items, Pairs, Inner.
-- `Items` is `[]Value`, `Pairs` is `[]KeyValue`, and `Inner` is `*Value`.
mutual
  pub data Value : Type 0 where
    value : Kind.Kind → Bytes → ℤ → ℕ → Bool → Bytes → Items → Pairs → Inner → Value

  pub data Items : Type 0 where
    no_items : Items
    item : Value → Items → Items

  pub data Pairs : Type 0 where
    no_pairs : Pairs
    pair : Value → Value → Pairs → Pairs

  pub data Inner : Type 0 where
    nil : Inner
    ref : Value → Inner

abbrev pub len_items : Items → ℕ
len_items no_items = 0
len_items (item _ xs) = suc (len_items xs)

abbrev pub len_pairs : Pairs → ℕ
len_pairs no_pairs = 0
len_pairs (pair _ _ kvs) = suc (len_pairs kvs)

-- Struct literals that give `Str`, `Items` or `Pairs`; a field that is left out is zero.
abbrev pub with_str : Kind.Kind → Bytes → Value
with_str k s = value k s (pos 0) 0 false [] no_items no_pairs nil

abbrev pub with_items : Kind.Kind → Items → Value
with_items k xs = value k [] (pos 0) 0 false [] xs no_pairs nil

abbrev pub new_simple_string : Bytes → Value
new_simple_string s = with_str kind_simple_string s

abbrev pub new_error : Bytes → Value
new_error s = with_str kind_error s

abbrev pub new_big_number : Bytes → Value
new_big_number s = with_str kind_big_number s

abbrev pub new_bulk_string : Bytes → Value
new_bulk_string s = with_str kind_bulk_string s

abbrev pub new_blob_error : Bytes → Value
new_blob_error s = with_str kind_blob_error s

abbrev pub new_verbatim_string : Bytes → Bytes → Value
new_verbatim_string format s =
    value kind_verbatim_string s (pos 0) 0 false format no_items no_pairs nil

abbrev pub new_integer : ℤ → Value
new_integer n = value kind_integer [] n 0 false [] no_items no_pairs nil

abbrev pub new_double : ℕ → Value
new_double f = value kind_double [] (pos 0) f false [] no_items no_pairs nil

abbrev pub new_boolean : Bool → Value
new_boolean b = value kind_boolean [] (pos 0) 0 b [] no_items no_pairs nil

abbrev pub new_null : Value
new_null = with_items kind_null no_items

abbrev pub new_array : Items → Value
new_array xs = with_items kind_array xs

abbrev pub new_set : Items → Value
new_set xs = with_items kind_set xs

abbrev pub new_push : Items → Value
new_push xs = with_items kind_push xs

abbrev pub new_map : Pairs → Value
new_map kvs = value kind_map [] (pos 0) 0 false [] no_items kvs nil

abbrev pub new_attribute : Pairs → Value → Value
new_attribute kvs inner = value kind_attribute [] (pos 0) 0 false [] no_items kvs (ref inner)

unfoldable pub write_blob : ℕ → Bytes → Bytes
write_blob marker s = marker ∷ (itoa (length s) ++ (crlf ++ (s ++ crlf)))

-- The marker and the count that `writeAggregate` and `writePairs` write first.
unfoldable pub write_header : ℕ → ℕ → Bytes
write_header marker n = marker ∷ (itoa n ++ crlf)

-- What a call appends to the builder.
module _ (ft : FloatText) where
  unfoldable mutual
    unfolding write_blob write_header

    pub serialize : Value → Bytes
    serialize (value kind_simple_string str int float bool format items pairs inner) =
        b'+' ∷ (str ++ crlf)
    serialize (value kind_error str int float bool format items pairs inner) = b'-' ∷ (str ++ crlf)
    serialize (value kind_integer str int float bool format items pairs inner) =
        b':' ∷ (format_int int ++ crlf)
    serialize (value kind_big_number str int float bool format items pairs inner) =
        b'(' ∷ (str ++ crlf)
    serialize (value kind_double str int float bool format items pairs inner) =
        b',' ∷ (format_double ft float ++ crlf)
    serialize (value kind_boolean str int float bool format items pairs inner) =
        b'#' ∷ ((if bool then b't' else b'f') ∷ crlf)
    serialize (value kind_null str int float bool format items pairs inner) = codes "_\r\n"
    serialize (value kind_bulk_string str int float bool format items pairs inner) =
        write_blob b'$' str
    serialize (value kind_blob_error str int float bool format items pairs inner) =
        write_blob b'!' str
    serialize (value kind_verbatim_string str int float bool format items pairs inner) =
        write_blob b'=' (format ++ (b':' ∷ str))
    serialize (value kind_array str int float bool format items pairs inner) =
        write_header b'*' (len_items items) ++ serialize_items items
    serialize (value kind_set str int float bool format items pairs inner) =
        write_header b'~' (len_items items) ++ serialize_items items
    serialize (value kind_push str int float bool format items pairs inner) =
        write_header b'>' (len_items items) ++ serialize_items items
    serialize (value kind_map str int float bool format items pairs inner) =
        write_header b'%' (len_pairs pairs) ++ serialize_pairs pairs
    serialize (value kind_attribute str int float bool format items pairs inner) =
        write_header b'|' (len_pairs pairs) ++ (serialize_pairs pairs ++ serialize_inner inner)
    serialize (value (other _) str int float bool format items pairs inner) = []

    pub serialize_items : Items → Bytes
    serialize_items no_items = []
    serialize_items (item v xs) = serialize v ++ serialize_items xs

    pub serialize_pairs : Pairs → Bytes
    serialize_pairs no_pairs = []
    serialize_pairs (pair k v kvs) = serialize k ++ (serialize v ++ serialize_pairs kvs)

    -- Nothing is written for a nil `Inner`.
    pub serialize_inner : Inner → Bytes
    serialize_inner nil = []
    serialize_inner (ref v) = serialize v

unfoldable pub parse_blob : Kind.Kind → M Value
parse_blob kind = do n ← read_count; payload ← read_bytes n; pure (with_str kind payload)

unfoldable pub verbatim_of : Option (Bytes × Bytes) → Bytes → M Value
verbatim_of none payload = fail (invalid_verbatim payload)
verbatim_of (some (format, text)) payload = pure (new_verbatim_string format text)

unfoldable pub parse_verbatim : M Value
parse_verbatim = do n ← read_count; payload ← read_bytes n; verbatim_of (cut_colon payload) payload

unfoldable pub integer_of : Option ℤ → Bytes → M Value
integer_of none line = fail (invalid_integer line)
integer_of (some n) line = pure (new_integer n)

unfoldable pub boolean_of : Bytes → M Value
boolean_of line =
    if eq_bytes line (codes "t")
    then pure (new_boolean true)
    else if eq_bytes line (codes "f")
    then pure (new_boolean false)
    else fail (invalid_boolean line)

module _ (ft : FloatText) (lim : Limits) (parse_value : M Value) where
  -- The loops `for range n` with their `append`.
  unfoldable pub collect_items : ℕ → M Items
  collect_items zero = pure no_items
  collect_items (suc n) = do v ← parse_value; xs ← collect_items n; pure (item v xs)

  unfoldable pub collect_pairs : ℕ → M Pairs
  collect_pairs zero = pure no_pairs
  collect_pairs (suc n) = do
    k ← parse_value
    v ← parse_value
    kvs ← collect_pairs n
    pure (pair k v kvs)

  unfoldable pub parse_aggregate : Kind.Kind → M Value
  parse_aggregate kind = do
    n ← read_count
    make_slice lim.item_cap n
    xs ← collect_items n
    pure (with_items kind xs)

  unfoldable pub read_pairs : ℕ → M Pairs
  read_pairs n = do make_slice lim.pair_cap n; collect_pairs n

  unfoldable pub parse_map : M Value
  parse_map = do n ← read_count; kvs ← read_pairs n; pure (new_map kvs)

  unfoldable pub parse_attribute : M Value
  parse_attribute = do
    n ← read_count
    kvs ← read_pairs n
    inner ← parse_value
    pure (new_attribute kvs inner)

  -- The `switch` of `parseValue`, over the byte that was read.
  unfoldable pub parse_marked : ℕ → M Value
  parse_marked marker =
      if marker == b'+'
      then (do line ← read_line; pure (new_simple_string line))
      else if marker == b'-'
      then (do line ← read_line; pure (new_error line))
      else if marker == b':'
      then (do line ← read_line; integer_of (parse_int line) line)
      else if marker == b'('
      then (do line ← read_line; pure (new_big_number line))
      else if marker == b','
      then (do line ← read_line; f ← parse_double ft line; pure (new_double f))
      else if marker == b'#'
      then (do line ← read_line; boolean_of line)
      else if marker == b'_'
      then (do line ← read_line; pure new_null)
      else if marker == b'$'
      then parse_blob kind_bulk_string
      else if marker == b'!'
      then parse_blob kind_blob_error
      else if marker == b'='
      then parse_verbatim
      else if marker == b'*'
      then parse_aggregate kind_array
      else if marker == b'~'
      then parse_aggregate kind_set
      else if marker == b'>'
      then parse_aggregate kind_push
      else if marker == b'%'
      then parse_map
      else if marker == b'|'
      then parse_attribute
      else fail (unknown_type marker)

module _ (ft : FloatText) (lim : Limits) where
  -- Each nested value costs a unit of fuel.
  unfoldable pub parse_value : ℕ → M Value
  parse_value zero p = out_of_fuel
  parse_value (suc f) p =
      if leb (length p.input) p.position
      then err incomplete
      else parse_marked ft lim (parse_value f) (get_or p.input p.position 0)
          (record p { position = p.position + 1 })

  -- A nested value has its own marker byte, so fuel for one level more than there are bytes is enough.
  unfoldable pub parse : Bytes → Outcome Value
  parse s = map_ok (λ r. r.0) (parse_value (length s + 1) (record { input = s; position = 0 }))
