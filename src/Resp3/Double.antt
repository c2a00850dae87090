-- ===== src/Resp3/Double.antt =====
-- RESP3 doubles: `formatDouble` and `parseDouble`, the same in both resp3.go files.
-- A float64 is its bit pattern, a number below 2 ^ 64.
pub mod Text
use go_backend_examples.Common.{
  ℕ, ◌+◌, ◌-◌, ◌%◌, ◌^◌, ◌<◌, ◌≡◌, ◌≢◌, Bool, true, false, Option, none, some, Bytes, codes, All,
  eq_bytes, ltb, ◌==◌, if◌then◌else◌,
}
use go_backend_examples.Resp3.Outcome.{Outcome, ok, err, invalid_double}
use go_backend_examples.Resp3.Reader.{M, pure, fail}

-- math.Inf(1), math.Inf(-1) and math.NaN().
abbrev pub plus_inf : ℕ
plus_inf = 0x7ff0_0000_0000_0000

abbrev pub minus_inf : ℕ
minus_inf = 0xfff0_0000_0000_0000

abbrev pub nan : ℕ
nan = 0x7ff8_0000_0000_0001

-- math.IsNaN: the exponent bits are all set, and the fraction is not zero.
unfoldable pub is_nan : ℕ → Bool
is_nan f = ltb plus_inf (f % 2 ^ 63)

-- strconv.FormatFloat(f, 'g', -1, 64) and strconv.ParseFloat(s, 64), `none` for its error.
pub record FloatText : Type 0 where
  pub format_float : ℕ → Bytes
  pub parse_float : Bytes → Option ℕ

unfoldable pub format_double : FloatText → ℕ → Bytes
format_double ft f =
    if is_nan f
    then codes "nan"
    else if f == plus_inf
    then codes "inf"
    else if f == minus_inf
    then codes "-inf"
    else ft.format_float f

unfoldable pub float_of : Option ℕ → Bytes → M ℕ
float_of none s = fail (invalid_double s)
float_of (some f) s = pure f

unfoldable pub parse_double : FloatText → Bytes → M ℕ
parse_double ft s =
    if eq_bytes s (codes "inf")
    then pure plus_inf
    else if eq_bytes s (codes "-inf")
    then pure minus_inf
    else if eq_bytes s (codes "nan")
    then pure nan
    else float_of (ft.parse_float s) s

-- A bit pattern that is neither an infinity nor a NaN.
abbrev pub IsFinite : ℕ → Type 0
IsFinite f = (f < 2 ^ 64) × (f ≢ plus_inf) × (f ≢ minus_inf) × (is_nan f ≡ false)

-- What the codec relies on: the shortest text of a finite float is read back exactly, is one line,
-- and has no letter n, which "inf", "-inf" and "nan" have.
pub record IsFloatText (ft : FloatText) : Type 0 where
  pub exact : (f : ℕ) → IsFinite f → ft.parse_float (ft.format_float f) ≡ some f
  pub plain : (f : ℕ) → IsFinite f → All (λ c. (c ≢ b'\n') × (c ≢ b'n')) (ft.format_float f)
