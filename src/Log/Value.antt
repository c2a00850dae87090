-- ===== src/Log/Value.antt =====
-- Go values as the loggers see them, and attributes of log/slog.
use go_backend_examples.Common.{ℕ, ℤ, Bool, Bytes}

-- A value of type `any`, or a slog.Value. `log_valuer o v` is a struct with the fields `o` and a method
-- LogValue that returns `v`; `fields` is a map[string]any; `records` is a []groupRecord of the bag.
-- A float64 is its bit pattern, a time.Time a number of nanoseconds, and `failure` an error.
mutual
  pub data Value : Type 0 where
    nil : Value
    text failure : Bytes → Value
    int int64 duration : ℤ → Value
    uint64 float64 time : ℕ → Value
    boolean : Bool → Value
    slice : Values → Value
    records : Records → Value
    fields group : Attrs → Value
    log_valuer : Attrs → Value → Value

  pub data Values : Type 0 where
    no_values : Values
    value : Value → Values → Values

  pub data Attrs : Type 0 where
    no_attrs : Attrs
    attr : Bytes → Value → Attrs → Attrs

  pub data Records : Type 0 where
    no_records : Records
    group_record : Attrs → Records → Records

-- append(values, v), append(attrs, more...) and append(records, groupRecord{attrs: attrs}).
abbrev pub add_value : Values → Value → Values
add_value no_values v = value v no_values
add_value (value u vs) v = value u (add_value vs v)

abbrev pub append_attrs : Attrs → Attrs → Attrs
append_attrs no_attrs bs = bs
append_attrs (attr k v xs) bs = attr k v (append_attrs xs bs)

abbrev pub add_record : Records → Attrs → Records
add_record no_records xs = group_record xs no_records
add_record (group_record bs rs) xs = group_record bs (add_record rs xs)
