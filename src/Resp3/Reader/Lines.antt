-- ===== src/Resp3/Reader/Lines.antt =====
-- What the methods of the parser read from input of the form that the serializers write.
use go_backend_examples.Common.{
  ℕ, ◌∙◌, false, ◌+◌, ◌-◌, ◌<◌, ◌≤◌, ◌≡◌, ◌≢◌, refl, ap, some, [], ◌∷◌, ◌++◌, append_assoc, arith,
  Bytes, All, length, get_or, length-append, drop-length-append, take-length-append,
  get_or-length-append, leb, le→ltb_false, int_bound, All-append,
}
use native.Mathlib.Nat.{add_assoc}
use go_backend_examples.Strconv.{itoa}
use go_backend_examples.Strconv.RoundTrip.{parse_int-itoa, IsDecimal, itoa-IsDecimal}
use go_backend_examples.Resp3.Outcome.{ok}
use go_backend_examples.Resp3.Reader.{
  Parser, index_byte, trim_cr, slice, read_line, count_of, read_count, consume_crlf, read_bytes,
  make_slice, cut_colon, crlf,
}

-- A parser that has read `before` and has `rest` to read.
unfoldable pub at : Bytes → Bytes → Parser
at before rest = record { input = before ++ rest; position = length before }

-- A text with no line feed: what can stand on one line.
abbrev pub IsLine : Bytes → Type 0
IsLine = All (λ c. c ≢ b'\n')

trim_cr-append : (line : Bytes) → trim_cr (line ++ b'\r' ∷ []) ≡ line
unfolding trim_cr
trim_cr-append [] = refl
trim_cr-append (b ∷ []) = refl
trim_cr-append (b ∷ c ∷ s) = ap (λ l. b ∷ l) (trim_cr-append (c ∷ s))

index_byte-line :
    (line rest : Bytes) → IsLine line → index_byte (line ++ b'\n' ∷ rest) b'\n' ≡ some (length line)
unfolding index_byte
index_byte-line [] rest h = refl
index_byte-line (b ∷ s) rest (hb, h) = ground (arith, index_byte-line s rest h)

slice-append :
    (before line rest : Bytes) (stop : ℕ)
    → stop ≡ length before + length line
    → slice (before ++ (line ++ rest)) (length before) stop ≡ line
unfolding slice
slice-append before line rest stop e =
    let k : stop - length before ≡ length line = omega arith in
    rw (drop-length-append, k) (take-length-append line rest)

IsLine-cr : (line : Bytes) → IsLine line → IsLine (line ++ b'\r' ∷ [])
IsLine-cr line h = All-append _ line (b'\r' ∷ []) h (omega arith)

pub at-append :
    (before line rest : Bytes) (stop : ℕ)
    → stop ≡ length before + length line
    → record { input = before ++ (line ++ rest); position = stop } ≡ at (before ++ line) rest
unfolding at
at-append before line rest stop e = simp (append_assoc, length-append, e)

read_line-whole :
    (before whole rest : Bytes)
    → IsLine whole
    → read_line (at before (whole ++ b'\n' ∷ rest))
      ≡ ok (trim_cr whole, at (before ++ (whole ++ b'\n' ∷ [])) rest)
unfolding read_line at
read_line-whole before whole rest h =
    rw
      (
        drop-length-append,
        index_byte-line whole rest h,
        slice-append before whole (b'\n' ∷ rest) _ refl,
        read_line,
      )
      (simp (append_assoc, length-append, add_assoc))

pub read_line-at :
    (before line rest : Bytes)
    → IsLine line
    → read_line (at before (line ++ (crlf ++ rest))) ≡ ok (line, at (before ++ (line ++ crlf)) rest)
read_line-at before line rest h =
    let whole = line ++ b'\r' ∷ [] in
    let read = read_line-whole before whole rest (IsLine-cr line h) in
    simp (trim_cr-append, append_assoc) at read

pub IsDecimal-IsLine : (s : Bytes) → All IsDecimal s → IsLine s
IsDecimal-IsLine [] h = tt
IsDecimal-IsLine (c ∷ s) (hc, h) = (omega arith, IsDecimal-IsLine s h)

pub read_count-at :
    (before rest : Bytes) (n : ℕ)
    → n < int_bound
    → read_count (at before (itoa n ++ (crlf ++ rest)))
      ≡ ok (n, at (before ++ (itoa n ++ crlf)) rest)
unfolding read_count count_of
read_count-at before rest n h = rw (
  read_line-at before (itoa n) rest (IsDecimal-IsLine _ (itoa-IsDecimal n)),
  parse_int-itoa n h,
  count_of,
)

pub get_or_second :
    (xs : Bytes) (y z : ℕ) (ys : Bytes) (d : ℕ) → get_or (xs ++ y ∷ z ∷ ys) (length xs + 1) d ≡ z
get_or_second xs y z ys d =
    let step = get_or-length-append (xs ++ y ∷ []) z ys d in
    simp (append_assoc, length-append) at step

consume_crlf-at :
    (before rest : Bytes)
    → consume_crlf (at before (crlf ++ rest)) ≡ ok (tt, at (before ++ crlf) rest)
unfolding consume_crlf at
consume_crlf-at before rest =
    let whole = before ++ (crlf ++ rest) in
    let fits : length before + 2 ≤ length whole =
      omega (arith, length-append before (crlf ++ rest)) in
    rw
      (
        le→ltb_false (length whole) _ fits,
        get_or-length-append before b'\r' (b'\n' ∷ rest) 0,
        get_or_second before b'\r' b'\n' rest 0,
        consume_crlf,
      )
      (simp (append_assoc, length-append))

pub leb-false : (a b : ℕ) → b < a → leb a b ≡ false
leb-false a b h = ground arith

pub read_bytes-at :
    (before payload rest : Bytes)
    → length (before ++ (payload ++ (crlf ++ rest))) < int_bound
    → read_bytes (length payload) (at before (payload ++ (crlf ++ rest)))
      ≡ ok (payload, at (before ++ (payload ++ crlf)) rest)
unfolding read_bytes at
read_bytes-at before payload rest h =
    let more = crlf ++ rest in
    let size = length-append before (payload ++ more) in
    let size' = length-append payload more in
    let consumed : consume_crlf (record {
      input = before ++ (payload ++ more);
      position = length before + length payload;
    })
        ≡ ok (tt, at (before ++ payload ++ crlf) rest) =
      ap consume_crlf (at-append before payload more _ refl)
      ∙ consume_crlf-at (before ++ payload) rest in
    rw
      (
        leb-false int_bound (length before + length payload) (omega (arith, size, size')),
        le→ltb_false (length (before ++ (payload ++ more))) (length before + length payload)
            (omega (arith, size, size')),
        consumed,
        slice-append before payload more _ refl,
        read_bytes,
      )
      (simp append_assoc)

pub cut_colon-append :
    (format value : Bytes)
    → All (λ c. c ≢ b':') format
    → cut_colon (format ++ (b':' ∷ value)) ≡ some (format, value)
unfolding cut_colon
cut_colon-append [] value h = refl
cut_colon-append (c ∷ s) value (hc, h) = ground (arith, cut_colon-append s value h)

pub make_slice-at : (cap n : ℕ) (p : Parser) → n ≤ cap → make_slice cap n p ≡ ok (tt, p)
unfolding make_slice
make_slice-at cap n p h = rw (le→ltb_false cap n h)
