-- ===== src/Resp3/RoundTrip/Shapes.antt =====
-- How the sealed parser reads a marker with a line behind it, and a length-prefixed text.
use go_backend_examples.Common.{
  ℕ, zero, suc, ◌+◌, ◌≤◌, ◌<◌, ◌≡◌, ◌≢◌, refl, ap, sym, ◌∙◌, Bool, true, false, Option, none, some,
  List, [], ◌∷◌, ◌++◌, append_assoc, append-nil, arith, Bytes, All, length, get_or, length-append,
  get_or-length-append, leb, ◌==◌, if◌then◌else◌, ℤ, int_bound, codes, Bool-cases, inl, inr,
}
use go_backend_examples.Strconv.{itoa}
use go_backend_examples.Resp3.Outcome.{ok}
use go_backend_examples.Resp3.Double.{FloatText}
use go_backend_examples.Resp3.Reader.{Parser, M, ◌>>=◌, crlf, read_line}
use go_backend_examples.Resp3.Reader.Lines.{
  at, IsLine, read_line-at, read_count-at, read_bytes-at, leb-false, at-append,
}
use go_backend_examples.Resp3.Sealed.{RespType, Limits, parse_value, parse_marked, parse_blob}
use go_backend_examples.Resp3.Tagged

module _ (ft : FloatText) (lim : Limits) where
  -- The marker byte is read, and the switch goes on behind it.
  pub parse_value-step :
      (f : ℕ) (before : Bytes) (m : ℕ) (s : Bytes)
      → parse_value ft lim (suc f) (at before (m ∷ s))
        ≡ parse_marked ft lim (parse_value ft lim f) m (at (before ++ m ∷ []) s)
  unfolding parse_value at
  parse_value-step f before m s =
      rw
        (
          leb-false (length (before ++ m ∷ s)) (length before)
              (omega (arith, length-append before (m ∷ s))),
          get_or-length-append before m s 0,
        )
        (ap (parse_marked ft lim (parse_value ft lim f) m) (at-append before (m ∷ []) s _ refl))

pub length-append_bytes : (xs ys : Bytes) → length (xs ++ ys) ≡ length xs + length ys
length-append_bytes = length-append

pub ruleset lens = (arith, length-append_bytes)

-- `before`, `s` and what follows are a text that an int can index.
abbrev pub Indexed : Bytes → Bytes → Type 0
Indexed before s = length before + length s < int_bound

pub parse_blob-at :
    (before s rest : Bytes)
    → Indexed before (itoa (length s) ++ (crlf ++ (s ++ (crlf ++ rest))))
    → parse_blob (at before (itoa (length s) ++ (crlf ++ (s ++ (crlf ++ rest)))))
      ≡ ok (s, at (before ++ (itoa (length s) ++ (crlf ++ (s ++ crlf)))) rest)
unfolding parse_blob
parse_blob-at before s rest h =
    let front = before ++ (itoa (length s) ++ crlf) in
    rw
      (
        read_count-at before (s ++ (crlf ++ rest)) (length s) (omega lens),
        read_bytes-at front s rest (omega lens),
      )
      (simp append_assoc)

module _ (ft : FloatText) (lim : Limits) (f : ℕ) (before rest : Bytes) (m : ℕ) where
  -- A value that stands on one line behind its marker.
  pub reads_line :
      (s : Bytes) (k : Bytes → M RespType) (t : RespType)
      → IsLine s
      → parse_marked ft lim (parse_value ft lim f) m ≡ (read_line >>= k)
      → ((p : Parser) → k s p ≡ ok (t, p))
      → parse_value ft lim (suc f) (at before ((m ∷ (s ++ crlf)) ++ rest))
        ≡ ok (t, at (before ++ (m ∷ (s ++ crlf))) rest)
  reads_line s k t h marked value =
      rw
        (
          parse_value-step ft lim f before m ((s ++ crlf) ++ rest),
          marked,
          append_assoc s crlf rest,
          read_line-at (before ++ m ∷ []) s rest h,
          value,
        )
        (simp append_assoc)

  -- A value that is one length-prefixed text.
  pub reads_blob :
      (s : Bytes) (k : Bytes → M RespType) (t : RespType)
      → Indexed before (m ∷ (itoa (length s) ++ (crlf ++ (s ++ (crlf ++ rest)))))
      → parse_marked ft lim (parse_value ft lim f) m ≡ (parse_blob >>= k)
      → ((p : Parser) → k s p ≡ ok (t, p))
      → parse_value ft lim (suc f) (at before (Tagged.write_blob m s ++ rest))
        ≡ ok (t, at (before ++ Tagged.write_blob m s) rest)
  unfolding Tagged.write_blob
  reads_blob s k t h marked value =
      rw
        (
          parse_value-step ft lim f before m ((itoa (length s) ++ (crlf ++ (s ++ crlf))) ++ rest),
          marked,
          append_assoc (itoa (length s)) (crlf ++ (s ++ crlf)) rest,
          append_assoc s crlf rest,
          parse_blob-at (before ++ m ∷ []) s rest (omega lens),
          value,
        )
        (simp append_assoc)
