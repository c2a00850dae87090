-- ===== src/Transform/Hex.antt =====
-- That a transformed string is 64 digits, and tells the sums apart.
use go_backend_examples.Common.{
  ℕ, ◌*◌, ◌/◌, ◌%◌, ◌≤◌, ◌<◌, ◌≡◌, refl, ◌⊎◌, ◌↔◌, ap, [], ◌∷◌, Bytes, All, length, arith,
}
use go_backend_examples.Transform.{digit, encode_to_string, transform_string}

-- 0 to 9, or a to f.
abbrev pub IsHexDigit : ℕ → Type 0
IsHexDigit c = ((b'0' ≤ c) × (c ≤ b'9')) ⊎ ((b'a' ≤ c) × (c ≤ b'f'))

digit-IsHexDigit : (n : ℕ) → n < 16 → IsHexDigit (digit n)
unfolding digit
digit-IsHexDigit n h = ground arith

digit-injective : (m n : ℕ) → m < 16 → n < 16 → digit m ≡ digit n → m ≡ n
unfolding digit
digit-injective m n h k e = ground (arith, e)

-- The digits of a byte.
high : (c : ℕ) → c < 256 → c / 16 < 16
high c h = omega arith

low : (c : ℕ) → c % 16 < 16
low c = omega arith

from_digits : (c d : ℕ) → c / 16 ≡ d / 16 → c % 16 ≡ d % 16 → c ≡ d
from_digits c d e f = omega (arith, e, f)

length-encode_to_string : (s : Bytes) → length (encode_to_string s) ≡ 2 * length s
unfolding encode_to_string
length-encode_to_string [] = refl
length-encode_to_string (c ∷ s) = omega (arith, length-encode_to_string s)

encode_to_string-IsHexDigit :
    (s : Bytes) → All (λ c. c < 256) s → All IsHexDigit (encode_to_string s)
unfolding encode_to_string
encode_to_string-IsHexDigit [] h = tt
encode_to_string-IsHexDigit (c ∷ s) (h, hs) = (
  digit-IsHexDigit (c / 16) (high c h),
  (digit-IsHexDigit (c % 16) (low c), encode_to_string-IsHexDigit s hs),
)

encode_to_string-injective :
    (s t : Bytes)
    → All (λ c. c < 256) s
    → All (λ c. c < 256) t
    → encode_to_string s ≡ encode_to_string t
    → s ≡ t
unfolding encode_to_string
encode_to_string-injective [] [] h k e = refl
encode_to_string-injective [] (d ∷ t) h k e = cc
encode_to_string-injective (c ∷ s) [] h k e = cc
encode_to_string-injective (c ∷ s) (d ∷ t) (hc, hs) (hd, ht) e =
    let first = digit-injective (c / 16) (d / 16) (high c hc) (high d hd) (cc e) in
    let second = digit-injective (c % 16) (d % 16) (low c) (low d) (cc e) in
    let same : c ≡ d = from_digits c d first second in
    let rest = encode_to_string-injective s t hs ht (cc e) in cc (same, rest)

-- The transformed strings, if the hash has 32 bytes: each is 64 hexadecimal digits in lower case, and
-- two are equal just if the hashes are.
pub transform_string-Hex :
    (sum : Bytes → Bytes)
    → ((s : Bytes) → (length (sum s) ≡ 32) × All (λ c. c < 256) (sum s))
    → (s t : Bytes)
    → (length (transform_string sum s) ≡ 64)
      × All IsHexDigit (transform_string sum s)
      × ((transform_string sum s ≡ transform_string sum t) ↔ (sum s ≡ sum t))
transform_string-Hex sum law s t = (
  omega (arith, length-encode_to_string (sum s), (law s).0),
  encode_to_string-IsHexDigit (sum s) (law s).1,
  (encode_to_string-injective (sum s) (sum t) (law s).1 (law t).1, ap encode_to_string),
)
