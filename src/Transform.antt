-- ===== src/Transform.antt =====
-- github_ci_cd/transform_string.go: the SHA-256 of a string in hexadecimal digits.
pub mod Hex
use go_backend_examples.Common.{ℕ, ◌+◌, ◌/◌, ◌%◌, ltb, if◌then◌else◌, [], ◌∷◌, Bytes}

-- The character of a hexadecimal digit, in lower case.
unfoldable pub digit : ℕ → ℕ
digit n = if ltb n 10 then b'0' + n else 87 + n

-- hex.EncodeToString.
unfoldable pub encode_to_string : Bytes → Bytes
unfolding digit
encode_to_string [] = []
encode_to_string (c ∷ s) = digit (c / 16) ∷ digit (c % 16) ∷ encode_to_string s

-- `sum` is the SHA-256 of what is written to the hasher.
abbrev pub transform_string : (Bytes → Bytes) → Bytes → Bytes
transform_string sum s = encode_to_string (sum s)
