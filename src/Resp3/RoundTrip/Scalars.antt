-- ===== src/Resp3/RoundTrip/Scalars.antt =====
-- What the serializers write for a value that holds no other, the parsers read back.
use go_backend_examples.Common.{
  ℕ, zero, suc, ◌<◌, ◌≡◌, refl, sym, Bool, true, false, [], ◌∷◌, ◌++◌, arith, Bytes, length,
  length-append, ℤ, codes, eq_bytes,
}
use go_backend_examples.Strconv.{format_int, parse_int}
use go_backend_examples.Strconv.RoundTrip.{parse_int-format_int, format_int-IsDecimal}
use go_backend_examples.Resp3.Outcome.{ok}
use go_backend_examples.Resp3.Double.{FloatText, IsFloatText, format_double, parse_double}
use go_backend_examples.Resp3.Reader.{◌>>=◌, pure, read_count, read_bytes, cut_colon, >>=_assoc}
use go_backend_examples.Resp3.Reader.Lines.{at, cut_colon-append, IsDecimal-IsLine}
use go_backend_examples.Resp3.Sealed.{
  RespType, Items, Pairs, simple_string, error_reply, integer, big_number, double, boolean, null,
  bulk_string, blob_error, verbatim_string, Limits, parse_value, parse_marked, parse_blob,
  parse_verbatim_string, integer_of, boolean_of, verbatim_of,
}
use go_backend_examples.Resp3.Tagged
use go_backend_examples.Resp3.Double.Text.{format_double-IsLine, parse_double-format_double}
use go_backend_examples.Resp3.Embed.{embed, embed_items, embed_pairs, IsSendable}
use go_backend_examples.Resp3.RoundTrip.Shapes.{Indexed, lens, reads_line, reads_blob}

module _ (ft : FloatText) where
  abbrev pub wire : RespType → Bytes
  wire t = Tagged.serialize ft (embed t)

  abbrev pub wire_items : Items → Bytes
  wire_items xs = Tagged.serialize_items ft (embed_items xs)

  abbrev pub wire_pairs : Pairs → Bytes
  wire_pairs kvs = Tagged.serialize_pairs ft (embed_pairs kvs)

module _ (ft : FloatText) (laws : IsFloatText ft) (lim : Limits) where
  -- With fuel for its bytes, `t` is read off `w` at the front of what is left of the input.
  abbrev pub ReadsAs : RespType → Bytes → Type 0
  ReadsAs t w =
      (f : ℕ)
      → length w < f
      → IsSendable lim t
      → (before rest : Bytes) → Indexed before (w ++ rest)
      → parse_value ft lim f (at before (w ++ rest)) ≡ ok (t, at (before ++ w) rest)

  abbrev pub Reads : RespType → Type 0
  Reads t = ReadsAs t (wire ft t)

  -- Fuel above a number is a successor.
  pub on_suc :
      {t : RespType} (w : Bytes)
      → ((f : ℕ)
          → length w < suc f
          → IsSendable lim t
          → (before rest : Bytes) → Indexed before (w ++ rest)
          → parse_value ft lim (suc f) (at before (w ++ rest)) ≡ ok (t, at (before ++ w) rest))
      → ReadsAs t w
  on_suc w k zero h = absurd (omega arith)
  on_suc w k (suc f) h = k f h

  pub Reads-simple_string : (s : Bytes) → Reads (simple_string s)
  unfolding Tagged.serialize embed IsSendable
  Reads-simple_string s = on_suc _ λ f h v before rest b.
      reads_line ft lim f before rest b'+' s (λ line. pure (simple_string line)) (simple_string s) v
        (unfold parse_marked in refl) (λ p. refl)

  pub Reads-double : (d : ℕ) → Reads (double d)
  unfolding Tagged.serialize embed IsSendable
  Reads-double d = on_suc _ λ f h v before rest b.
      reads_line ft lim f before rest b',' (format_double ft d)
        (λ line. parse_double ft line >>= λ x. pure (double x)) (double d)
        (format_double-IsLine ft d laws v.0 v.1) (unfold parse_marked in refl)
        (λ p. rw (parse_double-format_double ft d p laws v.0 v.1))

  pub Reads-integer : (n : ℤ) → Reads (integer n)
  unfolding Tagged.serialize embed IsSendable integer_of
  Reads-integer n = on_suc _ λ f h v before rest b.
      reads_line ft lim f before rest b':' (format_int n) (λ line. integer_of (parse_int line) line)
        (integer n) (IsDecimal-IsLine _ (format_int-IsDecimal n)) (unfold parse_marked in refl)
        (λ p. rw (parse_int-format_int n v, integer_of))

  pub Reads-error_reply : (s : Bytes) → Reads (error_reply s)
  unfolding Tagged.serialize embed IsSendable
  Reads-error_reply s = on_suc _ λ f h v before rest b.
      reads_line ft lim f before rest b'-' s (λ line. pure (error_reply line)) (error_reply s) v
        (unfold parse_marked in refl) (λ p. refl)

  pub Reads-big_number : (s : Bytes) → Reads (big_number s)
  unfolding Tagged.serialize embed IsSendable
  Reads-big_number s = on_suc _ λ f h v before rest b.
      reads_line ft lim f before rest b'(' s (λ line. pure (big_number line)) (big_number s) v
        (unfold parse_marked in refl) (λ p. refl)

  pub Reads-boolean : (x : Bool) → Reads (boolean x)
  unfolding Tagged.serialize embed IsSendable
  Reads-boolean true = on_suc _ λ f h v before rest b.
      reads_line ft lim f before rest b'#' (codes "t") boolean_of (boolean true) (omega arith)
        (unfold parse_marked in refl) (λ p. unfold boolean_of eq_bytes in refl)
  Reads-boolean false = on_suc _ λ f h v before rest b.
      reads_line ft lim f before rest b'#' (codes "f") boolean_of (boolean false) (omega arith)
        (unfold parse_marked in refl) (λ p. unfold boolean_of eq_bytes in refl)

  pub Reads-null : Reads null
  unfolding Tagged.serialize embed IsSendable
  Reads-null = on_suc _ λ f h v before rest b.
      reads_line ft lim f before rest b'_' [] (λ line. pure null) null tt
        (unfold parse_marked in refl) (λ p. refl)

  pub Reads-bulk_string : (s : Bytes) → Reads (bulk_string s)
  unfolding Tagged.serialize embed IsSendable
  Reads-bulk_string s = on_suc _ λ f h v before rest b.
      reads_blob ft lim f before rest b'$' s (λ x. pure (bulk_string x)) (bulk_string s)
        (omega (lens, length-append (wire ft (bulk_string s)) rest)) (unfold parse_marked in refl)
        (λ p. refl)

  pub Reads-blob_error : (s : Bytes) → Reads (blob_error s)
  unfolding Tagged.serialize embed IsSendable
  Reads-blob_error s = on_suc _ λ f h v before rest b.
      reads_blob ft lim f before rest b'!' s (λ x. pure (blob_error x)) (blob_error s)
        (omega (lens, length-append (wire ft (blob_error s)) rest)) (unfold parse_marked in refl)
        (λ p. refl)

  pub Reads-verbatim_string : (format s : Bytes) → Reads (verbatim_string format s)
  unfolding Tagged.serialize embed IsSendable verbatim_of
  Reads-verbatim_string format s = on_suc _ λ f h v before rest b.
      reads_blob ft lim f before rest b'=' (format ++ (b':' ∷ s)) (λ x. verbatim_of (cut_colon x) x)
        (verbatim_string format s)
        (omega (lens, length-append (wire ft (verbatim_string format s)) rest))
        (unfold parse_marked parse_verbatim_string parse_blob in
          sym (>>=_assoc read_count read_bytes (λ x. verbatim_of (cut_colon x) x)))
        (λ p. rw (cut_colon-append format s v, verbatim_of))
