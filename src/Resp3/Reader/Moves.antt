-- ===== src/Resp3/Reader/Moves.antt =====
-- How far the methods move the position: never back, never past the end, and never out of fuel.
use go_backend_examples.Common.{
  ℕ, ◌+◌, ◌-◌, ◌≤◌, ◌<◌, ◌≡◌, refl, ap, ◌∙◌, ℤ, int_bound, leb, length-drop, Option-cases, Bool,
  true, false, Option, none, some, [], ◌∷◌, Bytes, arith, length, drop, if◌then◌else◌, ltb,
  Bool-cases, inl, inr, ltb_false→le, pos, negsuc, suc, zero,
}
use go_backend_examples.Strconv.{parse_int}
use go_backend_examples.Resp3.Outcome.{
  ParseError, Ensures, holds, failed, crashed, Ensures-bind, Ensures-if, Ensures-weaken,
  invalid_length, negative_length,
}
use go_backend_examples.Resp3.Reader.{
  Parser, M, pure, fail, ◌>>=◌, index_byte, read_line, count_of, read_count, consume_crlf,
  read_bytes, make_slice,
}

-- Bytes that are left to read.
abbrev pub left : Parser → ℕ
left p = length p.input - p.position

pub record Within (p q : Parser) : Type 0 where
  pub same : q.input ≡ p.input
  pub forward : p.position ≤ q.position
  pub inside : q.position ≤ length p.input

-- With fewer bytes left than `f`, `m` ends within the input and within its fuel.
pub record Ends {ℓ} {A : Type ℓ} (f : ℕ) (m : M A) : Type ℓ where
  pub at :
      (p : Parser) → p.position ≤ length p.input → left p < f → Ensures (λ r. Within p r.1) (m p)

module _ {ℓ} {A : Type ℓ} {f : ℕ} where
  pub Ends-pure : (a : A) → Ends f (pure a)
  Ends-pure a = record {
    at = λ p i h. holds (record { same = refl; forward = omega arith; inside = i });
  }

  pub Ends-fail : (e : ParseError) → Ends f (fail {A = A} e)
  Ends-fail e = record { at = λ p i h. failed }

  pub Ends-if : (b : Bool) (m n : M A) → Ends f m → Ends f n → Ends f (if b then m else n)
  Ends-if true m n hm hn = hm
  Ends-if false m n hm hn = hn

module _ {ℓ κ} {A : Type ℓ} {B : Type κ} {f : ℕ} where
  pub Ends-bind : (m : M A) (k : A → M B) → Ends f m → ((a : A) → Ends f (k a)) → Ends f (m >>= k)
  Ends-bind m k hm hk = record {
    at = λ p i h. Ensures-bind (hm.at p i h) λ r w.
        let size = ap length w.same in
        Ensures-weaken ((hk r.0).at r.1 (omega (arith, size)) (omega (arith, size))) λ x w'.
          record { same = w'.same ∙ w.same; forward = omega arith; inside = omega (arith, size) };
  }

pub index_byte-lt : (s : Bytes) (c i : ℕ) → index_byte s c ≡ some i → i < length s
unfolding index_byte
index_byte-lt [] c i h = cc
index_byte-lt (b ∷ s) c zero h = omega arith
index_byte-lt (b ∷ s) c (suc i) h = ground (arith, index_byte-lt s c i)

pub Ends-read_line : (f : ℕ) → Ends f read_line
unfolding read_line
Ends-read_line f = record {
  at = λ p i h. elim (Option-cases (index_byte (drop p.position p.input) b'\n')) [
    | inl e ↦ rw (e, read_line) failed
    | inr (k, e) ↦
        let found = index_byte-lt (drop p.position p.input) b'\n' k e in
        rw (e, read_line)
          (holds (record {
            same = refl;
            forward = omega arith;
            inside = omega (arith, length-drop p.position p.input);
          }))
  ];
}

Ends-count_of : (f : ℕ) (o : Option ℤ) (line : Bytes) → Ends f (count_of o line)
unfolding count_of
Ends-count_of f none line = Ends-fail (invalid_length line)
Ends-count_of f (some (pos n)) line = Ends-pure n
Ends-count_of f (some (negsuc n)) line = Ends-fail (negative_length (suc n))

pub Ends-read_count : (f : ℕ) → Ends f read_count
unfolding read_count
Ends-read_count f = Ends-bind _ _ (Ends-read_line f) λ line. Ends-count_of f (parse_int line) line

Ends-consume_crlf : (f : ℕ) → Ends f consume_crlf
unfolding consume_crlf
Ends-consume_crlf f = record {
  at = λ p i h. elim (Bool-cases (ltb (length p.input) (p.position + 2))) [
    | inl e ↦ rw e failed
    | inr e ↦
        let fits = ltb_false→le (length p.input) (p.position + 2) e in
        rw e (
          Ensures-if _ failed
            (holds (record { same = refl; forward = omega arith; inside = fits })))
  ];
}

pub Ends-read_bytes : (f n : ℕ) → Ends f (read_bytes n)
unfolding read_bytes
Ends-read_bytes f n = record {
  at = λ p i h.
      Ensures-if (leb int_bound (p.position + n)) crashed
        (elim (Bool-cases (ltb (length p.input) (p.position + n))) [
          | inl e ↦ rw e failed
          | inr e ↦
              let fits = ltb_false→le (length p.input) (p.position + n) e in
              rw e (
                Ensures-bind
                  ((Ends-consume_crlf (suc (length p.input))).at
                    (record { input = p.input; position = p.position + n }) (omega arith)
                    (omega arith))
                  λ r w. holds (record { same = w.same; forward = omega arith; inside = w.inside }))
        ]);
}

pub Ends-make_slice : (f cap n : ℕ) → Ends f (make_slice cap n)
unfolding make_slice
Ends-make_slice f cap n = Ends-if (ltb cap n) _ _ (record { at = λ p i h. crashed }) (Ends-pure tt)
