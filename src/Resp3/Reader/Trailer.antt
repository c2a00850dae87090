-- ===== src/Resp3/Reader/Trailer.antt =====
-- A blob that does not end with CRLF.
use go_backend_examples.Common.{
  ℕ, ◌+◌, ◌<◌, ◌==◌, ◌≡◌, refl, ap, ◌∙◌, false, ◌&&◌, ◌∷◌, ◌++◌, Bytes, length, length-append,
  get_or-length-append, int_bound, le→ltb_false, Bool-cases, inl, inr, ◌≤◌, arith,
}
use go_backend_examples.Resp3.Outcome.{err, incomplete}
use go_backend_examples.Resp3.Reader.{consume_crlf, read_bytes}
use go_backend_examples.Resp3.Reader.Lines.{at, at-append, leb-false, get_or_second}

consume_crlf-bad :
    (before : Bytes) (c d : ℕ) (rest : Bytes)
    → (c == b'\r' && d == b'\n') ≡ false
    → consume_crlf (at before (c ∷ d ∷ rest)) ≡ err incomplete
unfolding consume_crlf at
consume_crlf-bad before c d rest h =
    let whole = before ++ (c ∷ d ∷ rest) in
    let fits : length before + 2 ≤ length whole =
      omega (arith, length-append before (c ∷ d ∷ rest)) in
    let room = le→ltb_false (length whole) (length before + 2) fits in
    let here = get_or-length-append before c (d ∷ rest) 0 in
    let next = get_or_second before c d rest 0 in
    elim (Bool-cases (c == b'\r')) [
      | inr e ↦ rw (room, here, next, e)
      | inl e ↦ elim (Bool-cases (d == b'\n')) [
        | inl f ↦ let both = rw (e, f) at h in cc both
        | inr f ↦ rw (room, here, next, e, f)
      ]
    ]

pub read_bytes-bad :
    (before payload : Bytes) (c d : ℕ) (rest : Bytes)
    → (c == b'\r' && d == b'\n') ≡ false
    → length (before ++ (payload ++ (c ∷ d ∷ rest))) < int_bound
    → read_bytes (length payload) (at before (payload ++ (c ∷ d ∷ rest))) ≡ err incomplete
unfolding read_bytes at
read_bytes-bad before payload c d rest h l =
    let more = c ∷ d ∷ rest in
    let size = length-append before (payload ++ more) in
    let size' = length-append payload more in
    let bad : consume_crlf (record {
      input = before ++ (payload ++ more);
      position = length before + length payload;
    })
        ≡ err incomplete =
      ap consume_crlf (at-append before payload more _ refl)
      ∙ consume_crlf-bad (before ++ payload) c d rest h in
    rw (
      leb-false int_bound (length before + length payload) (omega (arith, size, size')),
      le→ltb_false (length (before ++ (payload ++ more))) (length before + length payload)
          (omega (arith, size, size')),
      bad,
    )
