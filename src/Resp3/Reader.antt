-- ===== src/Resp3/Reader.antt =====
-- The `parser` struct of both resp3.go files and the methods that move its position; they are the
-- same in the two packages.
pub mod Lines
pub mod Moves
pub mod Longer
pub mod Trailer
use mathlib.Core.Path.{fun_ext}
use go_backend_examples.Common.{
  ℕ, ◌≡◌, zero, suc, ◌+◌, ◌-◌, Bool, true, false, ◌||◌, not, Option, none, some, [], ◌∷◌, Bytes,
  length, get_or, take, drop, ltb, leb, ◌==◌, if◌then◌else◌, ℤ, pos, negsuc, int_bound,
}
use go_backend_examples.Strconv.{parse_int}
use go_backend_examples.Resp3.Outcome.{
  Outcome, ParseError, ok, err, panicked, incomplete, invalid_length, negative_length, bind,
  bind_assoc,
}

-- `data` and `pos`.
pub record Parser : Type 0 where
  pub input : Bytes
  pub position : ℕ

-- A method of the parser that returns an `A` or an error; a method that fails ends the parse, so
-- the position that it leaves is not kept.
abbrev pub M {ℓ} : Type ℓ → Type ℓ
M A = Parser → Outcome (A × Parser)

module _ {ℓ} {A : Type ℓ} where
  abbrev pub pure : A → M A
  pure a p = ok (a, p)

  abbrev pub fail : ParseError → M A
  fail e p = err e

module _ {ℓ κ} {A : Type ℓ} {B : Type κ} where
  infixl 1 ◌>>=◌ ◌>>◌
  abbrev pub ◌>>=◌ : M A → (A → M B) → M B
  ◌>>=◌ m f p = bind (m p) λ r. f r.0 r.1

  abbrev pub ◌>>◌ : M A → M B → M B
  m >> n = m >>= λ _. n

pub >>=_assoc {ℓ κ μ} :
    {A : Type ℓ} {B : Type κ} {C : Type μ} (m : M A) (f : A → M B) (g : B → M C)
    → ((m >>= f) >>= g) ≡ (m >>= λ a. f a >>= g)
>>=_assoc m f g = fun_ext λ p. bind_assoc (m p) (λ r. f r.0 r.1) (λ r. g r.0 r.1)

-- What ends a line on the wire.
abbrev pub crlf : Bytes
crlf = b'\r' ∷ b'\n' ∷ []

-- bytes.IndexByte(s, c); `none` is -1.
unfoldable pub index_byte : Bytes → ℕ → Option ℕ
index_byte [] c = none
index_byte (b ∷ s) c =
    if b == c then some 0 else elim (index_byte s c) [ none ↦ none | some i ↦ some (suc i) ]

-- One trailing '\r' is dropped.
unfoldable pub trim_cr : Bytes → Bytes
trim_cr [] = []
trim_cr (b ∷ []) = if b == b'\r' then [] else b ∷ []
trim_cr (b ∷ c ∷ s) = b ∷ trim_cr (c ∷ s)

-- s[i:j].
unfoldable pub slice : Bytes → ℕ → ℕ → Bytes
slice s i j = take (j - i) (drop i s)

unfoldable pub read_line : M Bytes
read_line p = elim (index_byte (drop p.position p.input) b'\n') [
  | none ↦ err incomplete
  | some i ↦
      let start = p.position in
      let stop = start + i in
      ok (trim_cr (slice p.input start stop), record p { position = stop + 1 })
]

-- A length that is an int and not negative.
unfoldable pub count_of : Option ℤ → Bytes → M ℕ
count_of none line = fail (invalid_length line)
count_of (some (pos n)) line = pure n
count_of (some (negsuc n)) line = fail (negative_length (suc n))

unfoldable pub read_count : M ℕ
read_count = do line ← read_line; count_of (parse_int line) line

unfoldable pub consume_crlf : M (Unit {0})
consume_crlf p =
    if ltb (length p.input) (p.position + 2)
      || not (get_or p.input p.position 0 == b'\r')
      || not (get_or p.input (p.position + 1) 0 == b'\n')
    then err incomplete
    else ok (tt, record p { position = p.position + 2 })

-- `p.pos+n` is an int: a sum that reaches 2 ^ 63 wraps to a negative number, passes the test, and
-- the slice expression panics.
unfoldable pub read_bytes : ℕ → M Bytes
read_bytes n p =
    let stop = p.position + n in
    if leb int_bound stop
    then panicked
    else if ltb (length p.input) stop
    then err incomplete
    else (do consume_crlf; pure (slice p.input p.position stop)) (record p { position = stop })

-- make([]T, 0, n) panics if the run time cannot make a slice of capacity `n`.
unfoldable pub make_slice : ℕ → ℕ → M (Unit {0})
make_slice cap n = if ltb cap n then (λ p. panicked) else pure tt

-- strings.Cut(s, ":"): the parts before and behind the first ':'.
unfoldable pub cut_colon : Bytes → Option (Bytes × Bytes)
cut_colon [] = none
cut_colon (b ∷ s) =
    if b == b':'
    then some ([], s)
    else elim (cut_colon s) [ none ↦ none | some (before, after) ↦ some (b ∷ before, after) ]
