-- ===== src/Log/Bag.antt =====
-- logging/canonicallog/bag.go: the fields that a request collects for its canonical log line. The bag of
-- a context is shared by all who hold the context; each call takes its lock, so calls follow one
-- another.
pub mod Ascending
pub mod Calls
pub mod Locked
pub mod Public
use go_backend_examples.Common.{
  ℕ, ◌+◌, ℤ, pos, Option, none, some, List, [], ◌∷◌, Bytes, add_int64, lookup, insert, keys,
  sort_strings,
}
use go_backend_examples.Strconv.{itoa}
use go_backend_examples.Log.Value.{
  Value, nil, text, failure, int, int64, uint64, float64, time, duration, boolean, slice, records,
  fields, group, log_valuer, Values, no_values, Attrs, no_attrs, attr, Records, no_records,
  group_record, add_value, add_record,
}

-- Bag.fields, a map.
abbrev pub Bag : Type 0
Bag = List (Bytes × Value)

abbrev pub new_bag : Bag
new_bag = []

-- The type assertions `v, _ := bag.fields[key].(T)`, with the zero value where they fail.
abbrev pub as_int64 : Option Value → ℤ
as_int64 (some (int64 n)) = n
as_int64 _ = pos 0

abbrev pub as_duration : Option Value → ℤ
as_duration (some (duration n)) = n
as_duration _ = pos 0

abbrev pub as_slice : Option Value → Values
as_slice (some (slice vs)) = vs
as_slice _ = no_values

abbrev pub as_records : Option Value → Records
as_records (some (records rs)) = rs
as_records _ = no_records

-- The calls, for the bag that the context carries, if it carries one.
abbrev pub on_bag : (Bag → Bag) → Option Bag → Option Bag
on_bag f none = none
on_bag f (some bag) = some (f bag)

unfoldable pub set : Bytes → Value → Option Bag → Option Bag
set key v = on_bag (insert key v)

unfoldable pub add : Bytes → ℤ → Option Bag → Option Bag
add key delta = on_bag λ bag. insert key (int64 (add_int64 (as_int64 (lookup key bag)) delta)) bag

unfoldable pub add_duration : Bytes → ℤ → Option Bag → Option Bag
add_duration key d =
    on_bag λ bag. insert key (duration (add_int64 (as_duration (lookup key bag)) d)) bag

unfoldable pub append : Bytes → Value → Option Bag → Option Bag
append key v = on_bag λ bag. insert key (slice (add_value (as_slice (lookup key bag)) v)) bag

unfoldable pub append_group : Bytes → Attrs → Option Bag → Option Bag
append_group key xs =
    on_bag λ bag. insert key (records (add_record (as_records (lookup key bag)) xs)) bag

-- The loop of `attr` from index `i` on: slog.Group(strconv.Itoa(i), attrs...).
unfoldable pub group_records : ℕ → Records → Attrs
group_records i no_records = no_attrs
group_records i (group_record xs rs) = attr (itoa i) (group xs) (group_records (i + 1) rs)

-- The attribute of a field: slog.Group(key, groups...) or slog.Any(key, value).
unfoldable pub attr_value : Value → Value
unfolding group_records
attr_value (records rs) = group (group_records 0 rs)
attr_value v = v

-- bag.fields[key]; a missing key reads as nil.
abbrev pub field : Option Value → Value
field none = nil
field (some v) = v

-- The loop over the sorted keys.
unfoldable pub attrs_of : List Bytes → Bag → Attrs
unfolding attr_value
attrs_of [] bag = no_attrs
attrs_of (k ∷ ks) bag = attr k (attr_value (field (lookup k bag))) (attrs_of ks bag)

unfoldable pub attrs : Option Bag → Attrs
unfolding attrs_of sort_strings
attrs none = no_attrs
attrs (some bag) = attrs_of (sort_strings (keys bag)) bag
