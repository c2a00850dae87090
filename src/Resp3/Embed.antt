-- ===== src/Resp3/Embed.antt =====
-- The `Value` that the constructors of the tagged union build for a value of the sealed interface,
-- and the values that a client of either package can send.
pub mod Serialize
use go_backend_examples.Common.{
  ℕ, ◌+◌, ◌≤◌, ◌<◌, ◌≡◌, ◌≢◌, true, Bytes, All, int_bound, FitsInt64, pos, false, [], if◌then◌else◌,
}
use go_backend_examples.Resp3.Double.{FloatText, is_nan, nan}
use go_backend_examples.Resp3.Reader.Lines.{IsLine}
use go_backend_examples.Resp3.Sealed
use go_backend_examples.Resp3.Sealed.{
  RespType, Items, Pairs, nil, simple_string, error_reply, integer, big_number, double, boolean,
  null, bulk_string, blob_error, verbatim_string, array, set, push, map, attribute, no_items, item,
  no_pairs, pair, len_items, len_pairs, Limits, is_nil,
}
use go_backend_examples.Resp3.Tagged.Kind.{kind_simple_string, kind_attribute}
use go_backend_examples.Resp3.Tagged
use go_backend_examples.Resp3.Tagged.{
  Value, with_str, new_simple_string, new_error, new_integer, new_big_number, new_double,
  new_boolean, new_null, new_bulk_string, new_blob_error, new_verbatim_string, new_array, new_set,
  new_push, new_map, new_attribute, value,
}

-- A nil interface has no counterpart in the tagged union; it goes to the zero `Value`, and to a nil
-- `Inner` in an attribute.
unfoldable mutual
  pub embed : RespType → Value
  embed nil = with_str kind_simple_string []
  embed (simple_string s) = new_simple_string s
  embed (error_reply s) = new_error s
  embed (integer n) = new_integer n
  embed (big_number s) = new_big_number s
  embed (double f) = new_double f
  embed (boolean b) = new_boolean b
  embed null = new_null
  embed (bulk_string s) = new_bulk_string s
  embed (blob_error s) = new_blob_error s
  embed (verbatim_string format s) = new_verbatim_string format s
  embed (array xs) = new_array (embed_items xs)
  embed (set xs) = new_set (embed_items xs)
  embed (push xs) = new_push (embed_items xs)
  embed (map kvs) = new_map (embed_pairs kvs)
  embed (attribute kvs v) =
      if is_nil v
      then value kind_attribute [] (pos 0) 0 false [] Tagged.no_items (embed_pairs kvs) Tagged.nil
      else new_attribute (embed_pairs kvs) (embed v)

  pub embed_items : Items → Tagged.Items
  embed_items no_items = Tagged.no_items
  embed_items (item v xs) = Tagged.item (embed v) (embed_items xs)

  pub embed_pairs : Pairs → Tagged.Pairs
  embed_pairs no_pairs = Tagged.no_pairs
  embed_pairs (pair k v kvs) = Tagged.pair (embed k) (embed v) (embed_pairs kvs)

-- A count that both `make` and the `int` of `readCount` can hold.
abbrev pub Fits : ℕ → ℕ → Type 0
Fits cap n = (n ≤ cap) × (n < int_bound)

-- What a value needs to survive the wire: no line feed inside a line, an int64, a NaN that is
-- math.NaN(), no ':' in the format of a verbatim string, no nil, and no more elements than a slice
-- can hold.
module _ (lim : Limits) where
  unfoldable mutual
    pub IsSendable : RespType → Type 0
    IsSendable nil = ⊥
    IsSendable (simple_string s) = IsLine s
    IsSendable (error_reply s) = IsLine s
    IsSendable (integer n) = FitsInt64 n
    IsSendable (big_number s) = IsLine s
    IsSendable (double f) = (f < 18446744073709551616) × (is_nan f ≡ true → f ≡ nan)
    IsSendable (boolean b) = Unit
    IsSendable null = Unit
    IsSendable (bulk_string s) = Unit
    IsSendable (blob_error s) = Unit
    IsSendable (verbatim_string format s) = All (λ c. c ≢ b':') format
    IsSendable (array xs) = Fits lim.item_cap (len_items xs) × AllSendable xs
    IsSendable (set xs) = Fits lim.item_cap (len_items xs) × AllSendable xs
    IsSendable (push xs) = Fits lim.item_cap (len_items xs) × AllSendable xs
    IsSendable (map kvs) = Fits lim.pair_cap (len_pairs kvs) × PairsSendable kvs
    IsSendable (attribute kvs v) =
        Fits lim.pair_cap (len_pairs kvs) × PairsSendable kvs × IsSendable v

    pub AllSendable : Items → Type 0
    AllSendable no_items = Unit
    AllSendable (item v xs) = IsSendable v × AllSendable xs

    pub PairsSendable : Pairs → Type 0
    PairsSendable no_pairs = Unit
    PairsSendable (pair k v kvs) = IsSendable k × IsSendable v × PairsSendable kvs
