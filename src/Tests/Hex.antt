-- ===== src/Tests/Hex.antt =====
-- The texts of github_ci_cd/transform_test.go.
use go_backend_examples.Common.{
  ℕ, zero, suc, ◌<◌, ◌≡◌, ◌↔◌, ◌%◌, refl, [], ◌∷◌, Bytes, codes, All, length, arith,
}
use go_backend_examples.Transform.{digit, encode_to_string, transform_string}
use go_backend_examples.Transform.Hex.{IsHexDigit, transform_string-Hex}

-- The SHA-256 of the empty string.
abbrev empty_sum : Bytes
empty_sum =
    227 ∷ 176 ∷ 196 ∷ 66 ∷ 152 ∷ 252 ∷ 28 ∷ 20 ∷ 154 ∷ 251 ∷ 244 ∷ 200 ∷ 153 ∷ 111 ∷ 185 ∷ 36 ∷ 39
    ∷ 174 ∷ 65 ∷ 228 ∷ 100 ∷ 155 ∷ 147 ∷ 76 ∷ 164 ∷ 149 ∷ 153 ∷ 27 ∷ 120 ∷ 82 ∷ 184 ∷ 85 ∷ []

-- TestEmptyString.
empty_string :
    transform_string (λ s. empty_sum) []
    ≡ codes "e3b0c44298fc1c149afbf4c8996fb92427ae41e4649b934ca495991b7852b855"
unfolding encode_to_string digit
empty_string = refl

-- 32 bytes, the first of which tells the length.
abbrev zeros : ℕ → Bytes
zeros zero = []
zeros (suc n) = 0 ∷ zeros n

abbrev sum : Bytes → Bytes
sum s = (length s % 256) ∷ zeros 31

zeros-small : (n : ℕ) → All (λ c. c < 256) (zeros n)
zeros-small zero = tt
zeros-small (suc n) = (omega arith, zeros-small n)

sum-law : (s : Bytes) → (length (sum s) ≡ 32) × All (λ c. c < 256) (sum s)
sum-law s = (refl, (omega arith, zeros-small 31))

transform_string-Hex_example :
    (length (transform_string sum (codes "1234")) ≡ 64)
    × All IsHexDigit (transform_string sum (codes "1234"))
    × ((transform_string sum (codes "1234") ≡ transform_string sum [])
        ↔ (sum (codes "1234") ≡ sum []))
transform_string-Hex_example = transform_string-Hex sum sum-law (codes "1234") []
