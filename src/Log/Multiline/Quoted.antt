-- ===== src/Log/Multiline/Quoted.antt =====
-- That a value does not break its line.
use go_backend_examples.Common.{
  ℕ, ◌≡◌, ◌≢◌, Bool, true, false, ◌||◌, Bool-cases, inl, inr, [], ◌∷◌, Bytes, All, ℤ, arith,
}
use go_backend_examples.Strconv.{itoa, format_int}
use go_backend_examples.Strconv.RoundTrip.{IsDecimal, itoa-IsDecimal, format_int-IsDecimal}
use go_backend_examples.Log.Value.{Value, text, int, int64, uint64, boolean}
use go_backend_examples.Log.Multiline.{
  Format, contains_special, is_empty, format_string, format_value,
}

abbrev pub NoBreak : Bytes → Type 0
NoBreak s = All (λ c. c ≢ b'\n') s

-- The kinds of values that the handler formats itself, texts included.
pub data IsBasic : Value → Type 0 where
  basic_text : (s : Bytes) → IsBasic (text s)
  basic_int : (n : ℤ) → IsBasic (int n)
  basic_int64 : (n : ℤ) → IsBasic (int64 n)
  basic_uint64 : (n : ℕ) → IsBasic (uint64 n)
  basic_boolean : (b : Bool) → IsBasic (boolean b)

contains_special-NoBreak : (s : Bytes) → contains_special s ≡ false → NoBreak s
unfolding contains_special
contains_special-NoBreak [] h = tt
contains_special-NoBreak (c ∷ s) h = (ground arith, contains_special-NoBreak s (ground arith))

IsDecimal-NoBreak : (s : Bytes) → All IsDecimal s → NoBreak s
IsDecimal-NoBreak [] h = tt
IsDecimal-NoBreak (c ∷ s) (p, h) = (omega arith, IsDecimal-NoBreak s h)

module _ (format : Format) (law : (s : Bytes) → NoBreak (format.quote s)) where
  format_string-NoBreak : (s : Bytes) → NoBreak (format_string format s)
  unfolding format_string
  format_string-NoBreak s = elim (Bool-cases (is_empty s || contains_special s)) [
    | inl p ↦ rw p (law s)
    | inr p ↦ rw p (contains_special-NoBreak s (ground (arith, p)))
  ]

  -- A text, integer or Boolean is written without a line break, whatever the text holds, if
  -- strconv.Quote writes none.
  pub format_value-NoBreak : {v : Value} → IsBasic v → NoBreak (format_value format v)
  unfolding format_value
  format_value-NoBreak (basic_text s) = format_string-NoBreak s
  format_value-NoBreak (basic_int n) = IsDecimal-NoBreak (format_int n) (format_int-IsDecimal n)
  format_value-NoBreak (basic_int64 n) = IsDecimal-NoBreak (format_int n) (format_int-IsDecimal n)
  format_value-NoBreak (basic_uint64 n) = IsDecimal-NoBreak (itoa n) (itoa-IsDecimal n)
  format_value-NoBreak (basic_boolean true) = omega arith
  format_value-NoBreak (basic_boolean false) = omega arith
