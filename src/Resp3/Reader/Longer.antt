-- ===== src/Resp3/Reader/Longer.antt =====
-- The methods of the parser on an input and on a longer one: with more bytes behind it only a method
-- that was short of bytes may end otherwise.
use go_backend_examples.Common.{
  ℕ, zero, suc, ◌+◌, ◌-◌, ◌≤◌, ◌<◌, ◌==◌, ◌≡◌, refl, ap, ◌∙◌, ℤ, pos, negsuc, int_bound, leb, ltb,
  Bool, true, false, Option, none, some, Option-cases, Bool-cases, inl, inr, [], ◌∷◌, ◌++◌, Bytes,
  length, length-append, length-drop, take, drop, get_or, if◌then◌else◌, ltb_false→le, le→ltb_false,
  arith,
}
use go_backend_examples.Strconv.{parse_int}
use go_backend_examples.Resp3.Outcome.{
  Outcome, ParseError, ok, err, panicked, out_of_fuel, bind, incomplete, invalid_length,
  negative_length,
}
use go_backend_examples.Resp3.Reader.{
  Parser, M, pure, fail, ◌>>=◌, index_byte, slice, read_line, count_of, read_count, consume_crlf,
  read_bytes, make_slice,
}
use go_backend_examples.Resp3.Reader.Moves.{index_byte-lt}

drop-append : (i : ℕ) (s t : Bytes) → i ≤ length s → drop i (s ++ t) ≡ drop i s ++ t
drop-append zero s t h = refl
drop-append (suc i) [] t h = absurd (omega (arith, h))
drop-append (suc i) (b ∷ s) t h = drop-append i s t (omega (arith, h))

take-append : (n : ℕ) (s t : Bytes) → n ≤ length s → take n (s ++ t) ≡ take n s
take-append zero s t h = refl
take-append (suc n) [] t h = absurd (omega (arith, h))
take-append (suc n) (b ∷ s) t h = ap (λ l. b ∷ l) (take-append n s t (omega (arith, h)))

pub get_or-append :
    (i : ℕ) (s t : Bytes) (d : ℕ) → i < length s → get_or (s ++ t) i d ≡ get_or s i d
get_or-append i [] t d h = absurd (omega (arith, h))
get_or-append zero (b ∷ s) t d h = refl
get_or-append (suc i) (b ∷ s) t d h = get_or-append i s t d (omega (arith, h))

index_byte-append :
    (s t : Bytes) (c i : ℕ) → index_byte s c ≡ some i → index_byte (s ++ t) c ≡ some i
unfolding index_byte
index_byte-append [] t c i h = cc
index_byte-append (b ∷ s) t c i h = elim (Bool-cases (b == c)) [
  | inl e ↦ rw e (rw e at h)
  | inr e ↦ elim (Option-cases (index_byte s c)) [
    | inl f ↦ let none_found = rw (e, f) at h in cc none_found
    | inr (k, f) ↦ rw (e, index_byte-append s t c k f) (rw (e, f) at h)
  ]
]

slice-append : (s t : Bytes) (i j : ℕ) → i ≤ j → j ≤ length s → slice (s ++ t) i j ≡ slice s i j
unfolding slice
slice-append s t i j h k =
    ap (take (j - i)) (drop-append i s t (omega arith))
    ∙ take-append (j - i) (drop i s) t (omega (arith, length-drop i s))

-- How a method may end on `s` and on `s ++ rest`.
pub data Later {ℓ} {A : Type ℓ} (s rest : Bytes)
    : Outcome (A × Parser) → Outcome (A × Parser) → Type ℓ where
  short : {r : Outcome (A × Parser)} → Later s rest (err incomplete) r
  unfuelled : {r : Outcome (A × Parser)} → Later s rest out_of_fuel r
  both_ok :
      (a : A) (j : ℕ)
      → j ≤ length s
      → Later s rest
          (ok (a, record { input = s; position = j }))
          (ok (a, record { input = s ++ rest; position = j }))
  both_err : (e : ParseError) → Later s rest (err e) (err e)
  both_panic : Later s rest panicked panicked

-- What `m` does with `s` left, `n` does with `s ++ rest`, unless `m` is short of bytes.
pub record Extends {ℓ} {A : Type ℓ} (s rest : Bytes) (m n : M A) : Type ℓ where
  pub on :
      (i : ℕ)
      → i ≤ length s
      → Later s rest
          (m (record { input = s; position = i }))
          (n (record { input = s ++ rest; position = i }))

module _ {ℓ} {A : Type ℓ} {s rest : Bytes} where
  pub Extends-pure : (a : A) → Extends s rest (pure a) (pure a)
  Extends-pure a = record { on = λ i h. both_ok a i h }

  pub Extends-fail : (e : ParseError) → Extends s rest (fail {A = A} e) (fail e)
  Extends-fail e = record { on = λ i h. both_err e }

  pub Extends-if :
      (b : Bool) (m m' n n' : M A)
      → Extends s rest m n
      → Extends s rest m' n'
      → Extends s rest (if b then m else m') (if b then n else n')
  Extends-if true m m' n n' h h' = h
  Extends-if false m m' n n' h h' = h'

  Later-unless :
      (b : Bool) {r r' : Outcome (A × Parser)}
      → Later s rest r r'
      → Later s rest (if b then err incomplete else r) (if b then err incomplete else r')
  Later-unless true h = short
  Later-unless false h = h

module _ {ℓ κ} {A : Type ℓ} {B : Type κ} {s rest : Bytes} where
  Later-bind :
      {r r' : Outcome (A × Parser)} {k k' : A → M B}
      → Later s rest r r'
      → ((a : A) → Extends s rest (k a) (k' a))
      → Later s rest (bind r (λ x. k x.0 x.1)) (bind r' (λ x. k' x.0 x.1))
  Later-bind short h = short
  Later-bind unfuelled h = unfuelled
  Later-bind (both_ok a j l) h = (h a).on j l
  Later-bind (both_err e) h = both_err e
  Later-bind both_panic h = both_panic

  pub Extends-bind :
      (m n : M A) (k k' : A → M B)
      → Extends s rest m n
      → ((a : A) → Extends s rest (k a) (k' a))
      → Extends s rest (m >>= k) (n >>= k')
  Extends-bind m n k k' h hk = record { on = λ i l. Later-bind (h.on i l) hk }

module _ (s rest : Bytes) where
  still_fits : (n : ℕ) → n ≤ length s → ltb (length (s ++ rest)) n ≡ false
  still_fits n h = le→ltb_false (length (s ++ rest)) n (omega (arith, length-append s rest))

  pub Extends-read_line : Extends s rest read_line read_line
  unfolding read_line
  Extends-read_line = record {
    on = λ i h. elim (Option-cases (index_byte (drop i s) b'\n')) [
      | inl e ↦ rw (e, read_line) short
      | inr (k, e) ↦
          let found = index_byte-lt (drop i s) b'\n' k e in
          let fits : i + k + 1 ≤ length s = omega (arith, length-drop i s) in
          rw
            (
              e,
              read_line,
              drop-append i s rest h,
              index_byte-append (drop i s) rest b'\n' k e,
              slice-append s rest i (i + k) (omega arith) (omega arith),
            )
            (both_ok _ (i + k + 1) fits)
    ];
  }

  Extends-count_of :
      (o : Option ℤ) (line : Bytes) → Extends s rest (count_of o line) (count_of o line)
  unfolding count_of
  Extends-count_of none line = Extends-fail (invalid_length line)
  Extends-count_of (some (pos n)) line = Extends-pure n
  Extends-count_of (some (negsuc n)) line = Extends-fail (negative_length (suc n))

  pub Extends-read_count : Extends s rest read_count read_count
  unfolding read_count
  Extends-read_count =
      Extends-bind _ _ _ _ Extends-read_line λ line. Extends-count_of (parse_int line) line

  pub Extends-make_slice : (cap n : ℕ) → Extends s rest (make_slice cap n) (make_slice cap n)
  unfolding make_slice
  Extends-make_slice cap n =
      Extends-if (ltb cap n) _ _ _ _ (record { on = λ i h. both_panic }) (Extends-pure tt)

  Extends-consume_crlf : Extends s rest consume_crlf consume_crlf
  unfolding consume_crlf
  Extends-consume_crlf = record {
    on = λ i h. elim (Bool-cases (ltb (length s) (i + 2))) [
      | inl e ↦ rw e short
      | inr e ↦
          let fits = ltb_false→le (length s) (i + 2) e in
          let room = still_fits (i + 2) fits in
          rw
            (
              e,
              room,
              get_or-append i s rest 0 (omega arith),
              get_or-append (i + 1) s rest 0 (omega arith),
            )
            (Later-unless _ (both_ok tt (i + 2) fits))
    ];
  }

  pub Extends-read_bytes : (n : ℕ) → Extends s rest (read_bytes n) (read_bytes n)
  unfolding read_bytes
  Extends-read_bytes n = record {
    on = λ i h. elim (Bool-cases (leb int_bound (i + n))) [
      | inl e ↦ rw e both_panic
      | inr e ↦ elim (Bool-cases (ltb (length s) (i + n))) [
        | inl f ↦ rw (e, f) short
        | inr f ↦
            let fits = ltb_false→le (length s) (i + n) f in
            rw (e, f, still_fits (i + n) fits, slice-append s rest i (i + n) (omega arith) fits)
              (Later-bind (Extends-consume_crlf.on (i + n) fits)
                (λ a. Extends-pure (slice s i (i + n))))
      ]
    ];
  }
