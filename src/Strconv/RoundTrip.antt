-- ===== src/Strconv/RoundTrip.antt =====
-- What `format_int` and `itoa` write is read back, and is one line of digits.
use go_backend_examples.Common.{
  ℕ, zero, suc, ◌+◌, ◌/◌, ◌%◌, ◌≤◌, ◌<◌, ◌≡◌, ◌≢◌, refl, some, [], ◌∷◌, Bytes, arith, ltb, All, ℤ,
  pos, negsuc, int_bound, FitsInt64, Bool-cases, inl, inr,
}
use go_backend_examples.Strconv.Decimal.{
  digits, itoa, format_int, scan, parse_uint, positive, negative, parse_int,
}

scan-digits : (f n : ℕ) (out : Bytes) → n < f → scan (digits f n out) 0 ≡ scan out n
unfolding digits scan
scan-digits zero n out h = absurd (omega arith)
scan-digits (suc f) n out h = ground (arith, scan-digits f (n / 10) ((b'0' + n % 10) ∷ out))

-- A byte of a decimal number, the sign included.
abbrev pub IsDecimal : ℕ → Type 0
IsDecimal c = (b'-' ≤ c) × (c ≤ b'9')

abbrev IsDigit : ℕ → Type 0
IsDigit c = (b'0' ≤ c) × (c ≤ b'9')

digits-IsDigit : (f n : ℕ) (out : Bytes) → n < f → All IsDigit out → All IsDigit (digits f n out)
unfolding digits
digits-IsDigit zero n out h a = a
digits-IsDigit (suc f) n out h a = elim (Bool-cases (ltb n 10)) [
  | inl e ↦ rw e (ground arith, a)
  | inr e ↦ rw e (digits-IsDigit f (n / 10) ((b'0' + n % 10) ∷ out) (ground arith) (omega arith, a))
]

digits-ne-nil : (f n : ℕ) (out : Bytes) → out ≢ [] → digits f n out ≢ []
unfolding digits
digits-ne-nil zero n out h = h
digits-ne-nil (suc f) n out h =
    ground (arith, digits-ne-nil f (n / 10) ((b'0' + n % 10) ∷ out) (cc))

itoa-ne-nil : (n : ℕ) → itoa n ≢ []
unfolding itoa
itoa-ne-nil n = ground (arith, digits-ne-nil n (n / 10) ((b'0' + n % 10) ∷ []) (cc))

itoa-IsDigit : (n : ℕ) → All IsDigit (itoa n)
unfolding itoa
itoa-IsDigit n = unfold itoa in digits-IsDigit (suc n) n [] (omega arith) tt

parse_uint-scan : (s : Bytes) → s ≢ [] → parse_uint s ≡ scan s 0
unfolding parse_uint
parse_uint-scan [] h = absurd (h refl)
parse_uint-scan (c ∷ s) h = refl

pub parse_uint-itoa : (n : ℕ) → parse_uint (itoa n) ≡ some n
unfolding itoa scan
parse_uint-itoa n =
    rw (parse_uint-scan (itoa n) (itoa-ne-nil n)) (scan-digits (suc n) n [] (omega arith))

parse_int-digits : (s : Bytes) → s ≢ [] → All IsDigit s → parse_int s ≡ positive (parse_uint s)
unfolding parse_int
parse_int-digits [] h a = absurd (h refl)
parse_int-digits (c ∷ s) h a = ground arith

-- strconv.Atoi reads back what strconv.Itoa writes, for every length that an int can hold.
pub parse_int-itoa : (n : ℕ) → n < int_bound → parse_int (itoa n) ≡ some (pos n)
unfolding positive
parse_int-itoa n h =
    rw (parse_int-digits (itoa n) (itoa-ne-nil n) (itoa-IsDigit n), parse_uint-itoa n)
      (ground arith)

-- strconv.ParseInt reads back what strconv.FormatInt writes, for every int64.
pub parse_int-format_int : (z : ℤ) → FitsInt64 z → parse_int (format_int z) ≡ some z
unfolding format_int
parse_int-format_int (pos n) h = parse_int-itoa n h
parse_int-format_int (negsuc n) h =
    unfold parse_int negative in rw (parse_uint-itoa (suc n)) (ground arith)

IsDecimal-of : (s : Bytes) → All IsDigit s → All IsDecimal s
IsDecimal-of [] a = tt
IsDecimal-of (c ∷ s) (h, a) = (omega arith, IsDecimal-of s a)

pub itoa-IsDecimal : (n : ℕ) → All IsDecimal (itoa n)
itoa-IsDecimal n = IsDecimal-of (itoa n) (itoa-IsDigit n)

pub format_int-IsDecimal : (z : ℤ) → All IsDecimal (format_int z)
unfolding format_int
format_int-IsDecimal (pos n) = itoa-IsDecimal n
format_int-IsDecimal (negsuc n) = (omega arith, itoa-IsDecimal (suc n))
