-- ===== src/Resp3/Sealed.antt =====
-- enums/sealed_interface/resp3.go: the interface `Type`, its fifteen implementations, their
-- `Serialize` methods and the parser.
use go_backend_examples.Common.{
  ℕ, zero, suc, ◌+◌, Bool, true, false, Option, none, some, [], ◌∷◌, ◌++◌, Bytes, codes, length,
  get_or, leb, ◌==◌, if◌then◌else◌, ℤ, eq_bytes,
}
use go_backend_examples.Strconv.{itoa, format_int, parse_int}
use go_backend_examples.Resp3.Outcome.{
  Outcome, err, out_of_fuel, map_ok, incomplete, invalid_integer, invalid_boolean, invalid_verbatim,
  unknown_type,
}
use go_backend_examples.Resp3.Double.{FloatText, format_double, parse_double}
use go_backend_examples.Resp3.Reader.{
  M, pure, fail, ◌>>=◌, ◌>>◌, crlf, read_line, read_count, read_bytes, make_slice, cut_colon,
}

-- A value of the interface `Type`: nil, or one of its implementations. `Items` is `[]Type` and
-- `Pairs` is `[]KeyValue`.
mutual
  pub data RespType : Type 0 where
    nil : RespType
    simple_string : Bytes → RespType
    error_reply : Bytes → RespType
    integer : ℤ → RespType
    big_number : Bytes → RespType
    double : ℕ → RespType
    boolean : Bool → RespType
    null : RespType
    bulk_string : Bytes → RespType
    blob_error : Bytes → RespType
    verbatim_string : Bytes → Bytes → RespType
    array : Items → RespType
    set : Items → RespType
    push : Items → RespType
    map : Pairs → RespType
    attribute : Pairs → RespType → RespType

  pub data Items : Type 0 where
    no_items : Items
    item : RespType → Items → Items

  pub data Pairs : Type 0 where
    no_pairs : Pairs
    pair : RespType → RespType → Pairs → Pairs

-- len(items) and len(pairs).
abbrev pub len_items : Items → ℕ
len_items no_items = 0
len_items (item _ xs) = suc (len_items xs)

abbrev pub len_pairs : Pairs → ℕ
len_pairs no_pairs = 0
len_pairs (pair _ _ kvs) = suc (len_pairs kvs)

-- v == nil.
abbrev pub is_nil : RespType → Bool
is_nil nil = true
is_nil _ = false

unfoldable pub serialize_blob : ℕ → Bytes → Bytes
serialize_blob marker s = marker ∷ (itoa (length s) ++ (crlf ++ (s ++ crlf)))

-- The marker and the count in front of the elements.
unfoldable pub header : ℕ → ℕ → Bytes
header marker n = marker ∷ (itoa n ++ crlf)

-- The run of a method call: `none` is the panic of a call on a nil interface.
infixl 1 ◌then_write◌
abbrev pub ◌then_write◌ : Option Bytes → Option Bytes → Option Bytes
none then_write r = none
some s then_write none = none
some s then_write some t = some (s ++ t)

module _ (ft : FloatText) where
  unfoldable mutual
    unfolding serialize_blob header

    pub serialize : RespType → Option Bytes
    serialize nil = none
    serialize (simple_string s) = some (b'+' ∷ (s ++ crlf))
    serialize (error_reply s) = some (b'-' ∷ (s ++ crlf))
    serialize (integer n) = some (b':' ∷ (format_int n ++ crlf))
    serialize (big_number s) = some (b'(' ∷ (s ++ crlf))
    serialize (double f) = some (b',' ∷ (format_double ft f ++ crlf))
    serialize (boolean b) = some (if b then codes "#t\r\n" else codes "#f\r\n")
    serialize null = some (codes "_\r\n")
    serialize (bulk_string s) = some (serialize_blob b'$' s)
    serialize (blob_error s) = some (serialize_blob b'!' s)
    serialize (verbatim_string format s) = some (serialize_blob b'=' (format ++ (b':' ∷ s)))
    serialize (array xs) = some (header b'*' (len_items xs)) then_write serialize_items xs
    serialize (set xs) = some (header b'~' (len_items xs)) then_write serialize_items xs
    serialize (push xs) = some (header b'>' (len_items xs)) then_write serialize_items xs
    serialize (map kvs) = some (header b'%' (len_pairs kvs)) then_write serialize_pairs kvs
    serialize (attribute kvs v) =
        some (header b'|' (len_pairs kvs))
        then_write serialize_pairs kvs
        then_write (if is_nil v then some [] else serialize v)

    pub serialize_items : Items → Option Bytes
    serialize_items no_items = some []
    serialize_items (item v xs) = serialize v then_write serialize_items xs

    pub serialize_pairs : Pairs → Option Bytes
    serialize_pairs no_pairs = some []
    serialize_pairs (pair k v kvs) =
        serialize k then_write serialize v then_write serialize_pairs kvs

-- The largest capacities that `make` accepts for `[]Type` and `[]KeyValue`.
pub record Limits : Type 0 where
  pub item_cap : ℕ
  pub pair_cap : ℕ

unfoldable pub parse_blob : M Bytes
parse_blob = do n ← read_count; read_bytes n

unfoldable pub verbatim_of : Option (Bytes × Bytes) → Bytes → M RespType
verbatim_of none payload = fail (invalid_verbatim payload)
verbatim_of (some (format, value)) payload = pure (verbatim_string format value)

unfoldable pub parse_verbatim_string : M RespType
parse_verbatim_string = do
  n ← read_count
  payload ← read_bytes n
  verbatim_of (cut_colon payload) payload

unfoldable pub integer_of : Option ℤ → Bytes → M RespType
integer_of none line = fail (invalid_integer line)
integer_of (some n) line = pure (integer n)

unfoldable pub boolean_of : Bytes → M RespType
boolean_of line =
    if eq_bytes line (codes "t")
    then pure (boolean true)
    else if eq_bytes line (codes "f")
    then pure (boolean false)
    else fail (invalid_boolean line)

module _ (ft : FloatText) (lim : Limits) (parse_value : M RespType) where
  -- `for range n` with its `append`.
  unfoldable pub collect_items : ℕ → M Items
  collect_items zero = pure no_items
  collect_items (suc n) = do v ← parse_value; xs ← collect_items n; pure (item v xs)

  unfoldable pub collect_pairs : ℕ → M Pairs
  collect_pairs zero = pure no_pairs
  collect_pairs (suc n) = do
    k ← parse_value
    v ← parse_value
    kvs ← collect_pairs n
    pure (pair k v kvs)

  unfoldable pub parse_items : M Items
  parse_items = do n ← read_count; make_slice lim.item_cap n; collect_items n

  unfoldable pub parse_pairs : M Pairs
  parse_pairs = do n ← read_count; make_slice lim.pair_cap n; collect_pairs n

  -- The `switch` of `parseValue`, over the byte that was read.
  unfoldable pub parse_marked : ℕ → M RespType
  parse_marked marker =
      if marker == b'+'
      then (do line ← read_line; pure (simple_string line))
      else if marker == b'-'
      then (do line ← read_line; pure (error_reply line))
      else if marker == b':'
      then (do line ← read_line; integer_of (parse_int line) line)
      else if marker == b'('
      then (do line ← read_line; pure (big_number line))
      else if marker == b','
      then (do line ← read_line; f ← parse_double ft line; pure (double f))
      else if marker == b'#'
      then (do line ← read_line; boolean_of line)
      else if marker == b'_'
      then (do line ← read_line; pure null)
      else if marker == b'$'
      then (do s ← parse_blob; pure (bulk_string s))
      else if marker == b'!'
      then (do s ← parse_blob; pure (blob_error s))
      else if marker == b'='
      then parse_verbatim_string
      else if marker == b'*'
      then (do xs ← parse_items; pure (array xs))
      else if marker == b'~'
      then (do xs ← parse_items; pure (set xs))
      else if marker == b'>'
      then (do xs ← parse_items; pure (push xs))
      else if marker == b'%'
      then (do kvs ← parse_pairs; pure (map kvs))
      else if marker == b'|'
      then (do kvs ← parse_pairs; inner ← parse_value; pure (attribute kvs inner))
      else fail (unknown_type marker)

module _ (ft : FloatText) (lim : Limits) where
  -- Each nested value costs a unit of fuel.
  unfoldable pub parse_value : ℕ → M RespType
  parse_value zero p = out_of_fuel
  parse_value (suc f) p =
      if leb (length p.input) p.position
      then err incomplete
      else parse_marked ft lim (parse_value f) (get_or p.input p.position 0)
          (record p { position = p.position + 1 })

  -- A nested value has its own marker byte, so fuel for one level more than there are bytes is enough.
  unfoldable pub parse : Bytes → Outcome RespType
  parse s = map_ok (λ r. r.0) (parse_value (length s + 1) (record { input = s; position = 0 }))
