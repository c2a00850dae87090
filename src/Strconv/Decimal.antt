-- ===== src/Strconv/Decimal.antt =====
-- strconv.FormatInt, strconv.Itoa, strconv.ParseInt and strconv.Atoi at base 10 and 64 bits.
use go_backend_examples.Common.{
  ℕ, zero, suc, ◌+◌, ◌-◌, ◌/◌, ◌%◌, ◌*◌, ◌||◌, Option, none, some, [], ◌∷◌, Bytes, ltb, ◌==◌,
  if◌then◌else◌, ℤ, pos, negsuc, int_bound,
}

-- The digits of `n` in front of `out`; a number is below its own successor, so fuel `n + 1` is enough.
unfoldable pub digits : ℕ → ℕ → Bytes → Bytes
digits zero n out = out
digits (suc f) n out =
    let rest = digits f (n / 10) ((b'0' + n % 10) ∷ out) in
    if ltb n 10 then (b'0' + n) ∷ out else rest

-- strconv.Itoa and strconv.FormatUint of a number that is not negative.
unfoldable pub itoa : ℕ → Bytes
unfolding digits
itoa n = digits (suc n) n []

unfoldable pub format_int : ℤ → Bytes
unfolding itoa
format_int (pos n) = itoa n
format_int (negsuc n) = b'-' ∷ itoa (suc n)

-- The number that digits spell behind `n`; `none` at another byte.
unfoldable pub scan : Bytes → ℕ → Option ℕ
scan [] n = some n
scan (c ∷ s) n = if ltb c b'0' || ltb b'9' c then none else scan s (n * 10 + (c - b'0'))

unfoldable pub parse_uint : Bytes → Option ℕ
unfolding scan
parse_uint [] = none
parse_uint (c ∷ s) = scan (c ∷ s) 0

unfoldable pub positive : Option ℕ → Option ℤ
positive none = none
positive (some n) = if ltb n int_bound then some (pos n) else none

unfoldable pub negative : Option ℕ → Option ℤ
negative none = none
negative (some zero) = some (pos 0)
negative (some (suc n)) = if ltb n int_bound then some (negsuc n) else none

-- strconv.ParseInt(s, 10, 64), and strconv.Atoi.
unfoldable pub parse_int : Bytes → Option ℤ
unfolding parse_uint positive negative
parse_int [] = none
parse_int (c ∷ s) =
    if c == b'+'
    then positive (parse_uint s)
    else if c == b'-'
    then negative (parse_uint s)
    else positive (parse_uint (c ∷ s))
