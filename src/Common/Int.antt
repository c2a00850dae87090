-- ===== src/Common/Int.antt =====
-- Signed integers over the native numbers, the range of a Go `int64` and `int`, and its addition.
use Prim.Native.Nat.{ℕ, ◌+◌, ◌-◌, ◌%◌, ◌^◌, ◌<◌}
use mathlib.Core.Path.{◌≡◌, ap}
use native.Mathlib.Omega.{arith}
use go_backend_examples.Common.Tests.{ltb, if◌then◌else◌}

-- `negsuc n` is -(n + 1).
pub data ℤ : Type 0 where
  pos : ℕ → ℤ
  negsuc : ℕ → ℤ

-- 2 ^ 63, one above the largest int64.
abbrev pub int_bound : ℕ
int_bound = 2 ^ 63

-- The value fits in an int64.
abbrev pub FitsInt64 : ℤ → Type 0
FitsInt64 (pos n) = n < int_bound
FitsInt64 (negsuc n) = n < int_bound

-- The 64 bits of an int64, as a number.
unfoldable pub to_word : ℤ → ℕ
to_word (pos n) = n % 2 ^ 64
to_word (negsuc n) = 2 ^ 64 - 1 - n % 2 ^ 64

unfoldable pub of_word : ℕ → ℤ
of_word n = if ltb n (2 ^ 63) then pos n else negsuc (2 ^ 64 - 1 - n)

-- `a + b` on int64, which wraps.
unfoldable pub add_int64 : ℤ → ℤ → ℤ
add_int64 a b = of_word ((to_word a + to_word b) % 2 ^ 64)

pub to_word-lt : (a : ℤ) → to_word a < 2 ^ 64
unfolding to_word
to_word-lt (pos n) = omega arith
to_word-lt (negsuc n) = omega arith

pub to_word-of_word : (n : ℕ) → n < 2 ^ 64 → to_word (of_word n) ≡ n
unfolding to_word of_word
to_word-of_word n h = ground arith

pub of_word-to_word : (a : ℤ) → FitsInt64 a → of_word (to_word a) ≡ a
unfolding to_word of_word
of_word-to_word (pos n) h = ground arith
of_word-to_word (negsuc n) h = ground arith

pub to_word-add_int64 : (a b : ℤ) → to_word (add_int64 a b) ≡ (to_word a + to_word b) % 2 ^ 64
unfolding add_int64
to_word-add_int64 a b = to_word-of_word ((to_word a + to_word b) % 2 ^ 64) (omega arith)

pub add_int64_comm : (a b : ℤ) → add_int64 a b ≡ add_int64 b a
unfolding add_int64
add_int64_comm a b = ap of_word (omega arith)

pub add_int64_assoc : (a b c : ℤ) → add_int64 (add_int64 a b) c ≡ add_int64 a (add_int64 b c)
unfolding add_int64
add_int64_assoc a b c = ap of_word (omega (arith, to_word-add_int64 a b, to_word-add_int64 b c))

-- Within the range the sum is the plain one.
pub add_int64-pos : (a b : ℕ) → a + b < int_bound → add_int64 (pos a) (pos b) ≡ pos (a + b)
unfolding add_int64 to_word of_word
add_int64-pos a b h = ground arith
