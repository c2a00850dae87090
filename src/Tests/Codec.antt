-- ===== src/Tests/Codec.antt =====
-- The RESP3 codec: inputs of enums/sealed_interface/resp3_test.go and enums/tagged_union/resp3_test.go.
use go_backend_examples.Common.{
  ◌⊎◌, ◌≡◌, ◌≢◌, refl, some, none, [], ◌∷◌, ◌++◌, Bytes, codes, All, arith, pos, negsuc, eq_bytes,
}
use go_backend_examples.Strconv.{itoa, parse_uint, parse_int, format_int}
use go_backend_examples.Strconv.RoundTrip.{parse_uint-itoa, itoa-IsDecimal, IsDecimal}
use go_backend_examples.Resp3.Outcome.{
  ok, err, panicked, out_of_fuel, map_ok, incomplete, unknown_type, invalid_integer,
  invalid_boolean, invalid_verbatim,
}
use go_backend_examples.Resp3.Double.{FloatText, IsFloatText}
use go_backend_examples.Resp3.Reader.{
  crlf, read_line, read_count, count_of, read_bytes, consume_crlf, cut_colon, index_byte, trim_cr,
  slice,
}
use go_backend_examples.Resp3.Sealed.{
  RespType, Limits, nil, integer, bulk_string, verbatim_string, array, attribute, no_items, item,
  no_pairs, pair, serialize, parse, parse_value, parse_marked, parse_verbatim_string, integer_of,
  boolean_of, verbatim_of,
}
use go_backend_examples.Resp3.Tagged
use go_backend_examples.Resp3.Embed.{embed, IsSendable}
use go_backend_examples.Resp3.Codec.{
  serialize-HasNoNil, sealed_round_trip, tagged_round_trip, parse_ends, blob_length_overflow,
  array_length_panic,
}
use go_backend_examples.Resp3.Cut.{more_bytes, cut_short, bad_trailer}
use go_backend_examples.Resp3.Agree.{parse-embed}
use go_backend_examples.Resp3.Embed.Serialize.{HasNoNil}

-- Floats written as the decimal number of their bit pattern.
abbrev bit_text : FloatText
bit_text = record { format_float = itoa; parse_float = parse_uint }

plain_digits : (s : Bytes) → All IsDecimal s → All (λ c. (c ≢ b'\n') × (c ≢ b'n')) s
plain_digits [] h = tt
plain_digits (c ∷ s) (hc, h) = ((omega arith, omega arith), plain_digits s h)

bit_text-IsFloatText : IsFloatText bit_text
bit_text-IsFloatText = record {
  exact = λ f h. parse_uint-itoa f;
  plain = λ f h. plain_digits (itoa f) (itoa-IsDecimal f);
}

abbrev small : Limits
small = record { item_cap = 1000; pair_cap = 1000 }

-- |1\r\n$1\r\na\r\n:1\r\n*2\r\n=9\r\ntxt:hello\r\n:-7\r\n
abbrev sample : RespType
sample = attribute (pair (bulk_string (codes "a")) (integer (pos 1)) no_pairs) (
    array
      (item (verbatim_string (codes "txt") (codes "hello")) (item (integer (negsuc 6)) no_items)))

abbrev sample_text : Bytes
sample_text = codes "|1\r\n$1\r\na\r\n:1\r\n*2\r\n=9\r\ntxt:hello\r\n:-7\r\n"

serialize-sample : serialize bit_text sample ≡ some sample_text
unfolding serialize format_int itoa
serialize-sample = refl

sample-IsSendable : IsSendable small sample
unfolding IsSendable
sample-IsSendable = omega arith

sealed_round_trip_example : parse bit_text small (sample_text ++ codes "_\r\n") ≡ ok sample
sealed_round_trip_example =
    sealed_round_trip bit_text small sample sample_text (codes "_\r\n") bit_text-IsFloatText
      sample-IsSendable serialize-sample (omega arith)

wire-sample : Tagged.serialize bit_text (embed sample) ≡ sample_text
unfolding Tagged.serialize embed format_int itoa
wire-sample = refl

tagged_round_trip_example :
    Tagged.parse bit_text small (Tagged.serialize bit_text (embed sample) ++ codes "_\r\n")
    ≡ ok (embed sample)
tagged_round_trip_example =
    tagged_round_trip bit_text small sample (codes "_\r\n") bit_text-IsFloatText sample-IsSendable
      (rw wire-sample (omega arith))

parse_ends_example :
    (parse bit_text small (codes "*1\r\n*1\r\n") ≢ out_of_fuel)
    × (Tagged.parse bit_text small (codes "*1\r\n*1\r\n") ≢ out_of_fuel)
parse_ends_example = parse_ends bit_text small (codes "*1\r\n*1\r\n")

-- $9223372036854775807\r\n
blob_length_overflow_example :
    (parse bit_text small (b'$' ∷ (itoa 9223372036854775807 ++ (crlf ++ codes "hi\r\n")))
      ≡ panicked)
    × (Tagged.parse bit_text small (b'$' ∷ (itoa 9223372036854775807 ++ (crlf ++ codes "hi\r\n")))
        ≡ panicked)
blob_length_overflow_example =
    blob_length_overflow bit_text small 9223372036854775807 (codes "hi\r\n") (omega arith)
      (omega arith)

array_length_panic_example :
    (parse bit_text small (b'*' ∷ (itoa 1001 ++ (crlf ++ []))) ≡ panicked)
    × (Tagged.parse bit_text small (b'*' ∷ (itoa 1001 ++ (crlf ++ []))) ≡ panicked)
array_length_panic_example = array_length_panic bit_text small 1001 [] (omega arith) (omega arith)

parse-embed_example :
    Tagged.parse bit_text small (codes ":12") ≡ map_ok embed (parse bit_text small (codes ":12"))
parse-embed_example = parse-embed bit_text small (codes ":12")

serialize-HasNoNil_example :
    (HasNoNil sample
      × (serialize bit_text sample ≡ some (Tagged.serialize bit_text (embed sample))))
    ⊎ (¬ HasNoNil sample × (serialize bit_text sample ≡ none))
serialize-HasNoNil_example = serialize-HasNoNil bit_text sample

-- TestParseErrors.
parse_errors :
    (parse bit_text small [] ≡ err incomplete)
    × (parse bit_text small (codes ":12") ≡ err incomplete)
    × (parse bit_text small (codes "x\r\n") ≡ err (unknown_type b'x'))
    × (parse bit_text small (codes ":abc\r\n") ≡ err (invalid_integer (codes "abc")))
    × (parse bit_text small (codes "#x\r\n") ≡ err (invalid_boolean (codes "x")))
    × (parse bit_text small (codes "=3\r\nabc\r\n") ≡ err (invalid_verbatim (codes "abc")))
unfolding parse parse_value parse_marked parse_verbatim_string integer_of boolean_of verbatim_of
    read_line read_count count_of read_bytes consume_crlf cut_colon index_byte trim_cr slice
    parse_int eq_bytes
parse_errors = (refl, refl, refl, refl, refl, refl)

-- A nil element panics in Serialize; a nil value of an attribute does not.
nil_values :
    (serialize bit_text (array (item nil no_items)) ≡ none)
    × (serialize bit_text (attribute no_pairs nil) ≡ some (codes "|0\r\n"))
unfolding serialize itoa
nil_values = (refl, refl)

abbrev sample_start : Bytes
sample_start = codes "|1\r\n$1\r\na\r\n:1\r\n*2\r\n=9\r\ntxt:he"

abbrev sample_end : Bytes
sample_end = codes "lo\r\n:-7\r\n"

cut_short_example :
    (parse bit_text small sample_start ≡ err incomplete)
    × (Tagged.parse bit_text small sample_start ≡ err incomplete)
cut_short_example =
    cut_short bit_text small sample sample_start b'l' sample_end bit_text-IsFloatText
      sample-IsSendable serialize-sample (omega arith)

bad_boolean : parse bit_text small (codes "#x\r\n") ≢ err incomplete
unfolding parse parse_value parse_marked boolean_of read_line index_byte trim_cr slice eq_bytes
bad_boolean = cc

more_bytes_example :
    (parse bit_text small (codes "#x\r\n:1") ≡ parse bit_text small (codes "#x\r\n"))
    × (Tagged.parse bit_text small (codes "#x\r\n:1")
        ≡ Tagged.parse bit_text small (codes "#x\r\n"))
more_bytes_example = more_bytes bit_text small (codes "#x\r\n") (codes ":1") bad_boolean

bad_trailer_example :
    (parse bit_text small (codes "$2\r\nabxy:1\r\n") ≡ err incomplete)
    × (Tagged.parse bit_text small (codes "$2\r\nabxy:1\r\n") ≡ err incomplete)
unfolding itoa
bad_trailer_example =
    bad_trailer bit_text small (codes "ab") b'x' b'y' (codes ":1\r\n") refl (omega arith)
