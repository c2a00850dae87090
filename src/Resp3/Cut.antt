-- ===== src/Resp3/Cut.antt =====
-- What a client that reads from a connection can rely on: when ErrIncomplete asks for more bytes.
use go_backend_examples.Common.{
  ℕ, ◌+◌, ◌<◌, ◌≡◌, ◌≢◌, ap, ◌∙◌, sym, subst, some, Bytes, ◌∷◌, ◌++◌, arith, length, length-append,
  int_bound, append_assoc, ◌==◌, ◌&&◌, false, [],
}
use go_backend_examples.Resp3.Outcome.{ok, err, incomplete, map_ok}
use go_backend_examples.Resp3.Double.{FloatText, IsFloatText}
use go_backend_examples.Resp3.Embed.{embed, IsSendable}
use go_backend_examples.Strconv.{itoa}
use go_backend_examples.Resp3.Reader.{crlf}
use go_backend_examples.Resp3.Reader.Lines.{read_count-at}
use go_backend_examples.Resp3.Reader.Trailer.{read_bytes-bad}
use go_backend_examples.Resp3.Sealed
use go_backend_examples.Resp3.Sealed.{RespType, Limits}
use go_backend_examples.Resp3.Tagged
use go_backend_examples.Resp3.RoundTrip.{parse_value-serialize}
use go_backend_examples.Resp3.Total.{parse-ne-out_of_fuel}
use go_backend_examples.Resp3.Agree.{parse-embed}
use go_backend_examples.Resp3.Codec.{serialize_agrees, parse-first}
use go_backend_examples.Resp3.Streaming.{ends_short, later, sealed-append}

module _ (ft : FloatText) (lim : Limits) where
  -- Where the sealed interface's Parse ends otherwise than with ErrIncomplete (with a value, another
  -- error or a panic), more bytes behind the input change nothing, in either package.
  pub more_bytes :
      (s rest : Bytes)
      → Sealed.parse ft lim s ≢ err incomplete
      → (Sealed.parse ft lim (s ++ rest) ≡ Sealed.parse ft lim s)
        × (Tagged.parse ft lim (s ++ rest) ≡ Tagged.parse ft lim s)
  more_bytes s rest h =
      let sealed = sealed-append ft lim s rest h in
      (
        sealed,
        parse-embed ft lim (s ++ rest) ∙ ap (map_ok embed) sealed ∙ sym (parse-embed ft lim s),
      )

  sealed_cut :
      (t : RespType) (s rest : Bytes)
      → IsFloatText ft
      → IsSendable lim t
      → Tagged.serialize ft (embed t) ≡ s ++ rest
      → length s < length (s ++ rest)
      → length (s ++ rest) < int_bound
      → Sealed.parse ft lim s ≡ err incomplete
  unfolding Sealed.parse
  sealed_cut t s rest laws v e l h =
      ends_short t (record { input = s ++ rest; position = length (s ++ rest) })
        (later ft lim s rest) (parse-ne-out_of_fuel ft lim s)
        (subst
          (λ w.
            length w < int_bound
            → Sealed.parse_value ft lim (length w + 1) (record { input = w; position = 0 })
              ≡ ok (t, record { input = w; position = length w }))
          e (parse_value-serialize ft laws lim t v) h)
        l

  -- What a connection has delivered of a serialized value before its last byte, both parsers answer by
  -- ErrIncomplete and by no other error, value or panic, if the value is sendable, the text of floats is
  -- faithful and the whole is indexed by an int.
  pub cut_short :
      (t : RespType) (s : Bytes) (c : ℕ) (rest : Bytes)
      → IsFloatText ft
      → IsSendable lim t
      → Sealed.serialize ft t ≡ some (s ++ c ∷ rest)
      → length (s ++ c ∷ rest) < int_bound
      → (Sealed.parse ft lim s ≡ err incomplete) × (Tagged.parse ft lim s ≡ err incomplete)
  cut_short t s c rest laws v e h =
      let sealed =
        sealed_cut t s (c ∷ rest) laws v (serialize_agrees ft t (s ++ c ∷ rest) e).0
          (omega (arith, length-append s (c ∷ rest))) h in
      (sealed, parse-embed ft lim s ∙ ap (map_ok embed) sealed)

  -- A bulk string whose payload is not followed by CRLF is answered by ErrIncomplete in both packages,
  -- whatever bytes come behind it, if the whole is indexed by an int: more bytes do not help.
  pub bad_trailer :
      (s : Bytes) (c d : ℕ) (rest : Bytes)
      → (c == b'\r' && d == b'\n') ≡ false
      → length (b'$' ∷ (itoa (length s) ++ (crlf ++ (s ++ (c ∷ d ∷ rest))))) < int_bound
      → (Sealed.parse ft lim (b'$' ∷ (itoa (length s) ++ (crlf ++ (s ++ (c ∷ d ∷ rest)))))
          ≡ err incomplete)
        × (Tagged.parse ft lim (b'$' ∷ (itoa (length s) ++ (crlf ++ (s ++ (c ∷ d ∷ rest)))))
            ≡ err incomplete)
  unfolding Sealed.parse_marked Sealed.parse_blob
  bad_trailer s c d rest h l =
      let whole = itoa (length s) ++ (crlf ++ (s ++ (c ∷ d ∷ rest))) in
      let front = itoa (length s) ++ crlf in
      let size : length (b'$' ∷ whole) ≡ length (b'$' ∷ front ++ (s ++ (c ∷ d ∷ rest))) =
        ap (λ x. length (b'$' ∷ x))
          (sym (append_assoc (itoa (length s)) crlf (s ++ (c ∷ d ∷ rest)))) in
      let small : length s < int_bound = omega (
        arith,
        l,
        length-append (itoa (length s)) (crlf ++ (s ++ (c ∷ d ∷ rest))),
        length-append s (c ∷ d ∷ rest),
      ) in
      let sealed = parse-first ft lim b'$' whole (err incomplete) (λ f. rw (
        read_count-at (b'$' ∷ []) (s ++ (c ∷ d ∷ rest)) (length s) small,
        read_bytes-bad (b'$' ∷ front) s c d rest h (subst (λ n. n < int_bound) size l),
      )) in
      (sealed, parse-embed ft lim (b'$' ∷ whole) ∙ ap (map_ok embed) sealed)
