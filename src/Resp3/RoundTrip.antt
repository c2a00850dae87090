-- ===== src/Resp3/RoundTrip.antt =====
-- What the serializers write, the parsers read back.
pub mod Shapes
mod Scalars
mod Elements
use Shapes.{
  Indexed, lens, length-append_bytes, parse_value-step, parse_blob-at, reads_line, reads_blob,
}
use Scalars.{
  wire, wire_items, wire_pairs, ReadsAs, Reads, on_suc, Reads-simple_string, Reads-double,
  Reads-integer, Reads-error_reply, Reads-big_number, Reads-boolean, Reads-null, Reads-bulk_string,
  Reads-blob_error, Reads-verbatim_string,
}
use Elements.{
  ReadsItems, ReadsPairs, ReadsItems-no_items, ReadsItems-item, ReadsPairs-no_pairs,
  ReadsPairs-pair, parse_items-at, parse_pairs-at,
}
use go_backend_examples.Common.{
  ℕ, zero, suc, ◌+◌, ◌≤◌, ◌<◌, ◌≡◌, ◌≢◌, refl, ap, sym, ◌∙◌, Bool, true, false, Option, none, some,
  List, [], ◌∷◌, ◌++◌, append_assoc, append-nil, arith, Bytes, All, length, get_or, length-append,
  get_or-length-append, leb, ◌==◌, if◌then◌else◌, ℤ, int_bound, codes, Bool-cases, inl, inr,
  eq_bytes, subst,
}
use go_backend_examples.Strconv.{itoa, format_int, parse_int}
use go_backend_examples.Strconv.RoundTrip.{parse_int-format_int, format_int-IsDecimal}
use go_backend_examples.Resp3.Outcome.{Outcome, ok, bind, map_ok}
use go_backend_examples.Resp3.Double.{FloatText, IsFloatText, format_double, parse_double}
use go_backend_examples.Resp3.Reader.{
  Parser, M, ◌>>=◌, ◌>>◌, pure, crlf, read_line, read_count, read_bytes, make_slice, cut_colon,
  >>=_assoc,
}
use go_backend_examples.Resp3.Reader.Lines.{
  at, IsLine, read_line-at, read_count-at, read_bytes-at, cut_colon-append, make_slice-at,
  IsDecimal-IsLine, leb-false, at-append,
}
use go_backend_examples.Resp3.Sealed.{
  RespType, Items, Pairs, nil, simple_string, error_reply, integer, big_number, double, boolean,
  null, bulk_string, blob_error, verbatim_string, array, set, push, map, attribute, no_items, item,
  no_pairs, pair, len_items, len_pairs, Limits, is_nil, parse_value, parse_marked, parse_blob,
  collect_items, parse, collect_pairs, parse_items, parse_pairs, parse_verbatim_string, integer_of,
  boolean_of, verbatim_of,
}
use go_backend_examples.Resp3.Tagged
use go_backend_examples.Resp3.Double.Text.{format_double-IsLine, parse_double-format_double}
use go_backend_examples.Resp3.Double.{is_nan, nan}
use go_backend_examples.Resp3.Embed.{
  embed, embed_items, embed_pairs, IsSendable, AllSendable, PairsSendable, Fits,
}
use go_backend_examples.Resp3.Embed.Serialize.{len_items-embed, len_pairs-embed, is_nil-true}

module _ (ft : FloatText) (laws : IsFloatText ft) (lim : Limits) where
  -- An aggregate behind its marker `m`, whose case of the switch builds `c`.
  reads_aggregate :
      (m : ℕ) (c : Items → RespType) (xs : Items)
      → ((rec : M RespType)
          → parse_marked ft lim rec m ≡ (parse_items ft lim rec >>= λ ys. pure (c ys)))
      → (IsSendable lim (c xs) → Fits lim.item_cap (len_items xs) × AllSendable lim xs)
      → ReadsItems ft laws lim xs
      → ReadsAs ft laws lim
          (c xs)
          (Tagged.write_header m (Tagged.len_items (embed_items xs)) ++ wire_items ft xs)
  unfolding Tagged.write_header
  reads_aggregate m c xs marked open_v reads =
      let count = itoa (len_items xs) in
      let body = wire_items ft xs in
      rw (len_items-embed xs) (
        on_suc ft laws lim _ λ f h v before rest b.
          let size = length-append (count ++ crlf ++ body) rest in
          rw
            (
              parse_value-step ft lim f before m (count ++ crlf ++ body ++ rest),
              marked,
              append_assoc (count ++ crlf) body rest,
              append_assoc count crlf (body ++ rest),
              parse_items-at ft laws lim xs f (before ++ m ∷ []) rest reads (open_v v).0
                  (open_v v).1 (omega lens) (omega (lens, size)),
            )
            (simp append_assoc))

  reads_map :
      (kvs : Pairs)
      → ReadsPairs ft laws lim kvs
      → ReadsAs ft laws lim
          (map kvs)
          (Tagged.write_header b'%' (Tagged.len_pairs (embed_pairs kvs)) ++ wire_pairs ft kvs)
  unfolding Tagged.write_header IsSendable parse_marked
  reads_map kvs reads =
      let count = itoa (len_pairs kvs) in
      let body = wire_pairs ft kvs in
      rw (len_pairs-embed kvs) (
        on_suc ft laws lim _ λ f h v before rest b.
          let size = length-append (count ++ crlf ++ body) rest in
          rw
            (
              parse_value-step ft lim f before b'%' (count ++ crlf ++ body ++ rest),
              append_assoc (count ++ crlf) body rest,
              append_assoc count crlf (body ++ rest),
              parse_pairs-at ft laws lim kvs f (before ++ b'%' ∷ []) rest reads v.0 v.1 (omega lens)
                  (omega (lens, size)),
            )
            (simp append_assoc))

  reads_attribute :
      (kvs : Pairs) (t : RespType)
      → ReadsPairs ft laws lim kvs
      → Reads ft laws lim t
      → ReadsAs ft laws lim (attribute kvs t) (
          Tagged.write_header b'|' (Tagged.len_pairs (embed_pairs kvs))
          ++ (wire_pairs ft kvs ++ wire ft t))
  unfolding Tagged.write_header IsSendable parse_marked
  reads_attribute kvs t reads rt =
      let count = itoa (len_pairs kvs) in
      let body = wire_pairs ft kvs in
      let inner = wire ft t in
      rw (len_pairs-embed kvs) (
        on_suc ft laws lim _ λ f h v before rest b.
          let size = length-append (count ++ crlf ++ (body ++ inner)) rest in
          let front = before ++ b'|' ∷ [] in
          rw
            (
              parse_value-step ft lim f before b'|' (count ++ crlf ++ (body ++ inner) ++ rest),
              append_assoc (count ++ crlf) (body ++ inner) rest,
              append_assoc count crlf (body ++ inner ++ rest),
              append_assoc body inner rest,
              parse_pairs-at ft laws lim kvs f front (inner ++ rest) reads v.0 v.1 (omega lens)
                  (omega (lens, size)),
              rt f (omega lens) v.2 (front ++ (count ++ (crlf ++ body))) rest (omega (lens, size)),
            )
            (simp append_assoc))

  Reads-attribute :
      (kvs : Pairs) (t : RespType)
      → ReadsPairs ft laws lim kvs
      → Reads ft laws lim t
      → Reads ft laws lim (attribute kvs t)
  unfolding Tagged.serialize embed
  Reads-attribute kvs t reads rt = elim (Bool-cases (is_nil t)) [
    | inl e ↦ λ f h v. absurd (unfold IsSendable in subst (IsSendable lim) (is_nil-true t e) (v.2))
    | inr e ↦ rw e (reads_attribute kvs t reads rt)
  ]

  mutual
    unfolding Tagged.serialize embed IsSendable parse_marked

    reads : (t : RespType) → Reads ft laws lim t
    reads nil = λ f h v. absurd v
    reads (simple_string s) = Reads-simple_string ft laws lim s
    reads (error_reply s) = Reads-error_reply ft laws lim s
    reads (integer n) = Reads-integer ft laws lim n
    reads (big_number s) = Reads-big_number ft laws lim s
    reads (double d) = Reads-double ft laws lim d
    reads (boolean x) = Reads-boolean ft laws lim x
    reads null = Reads-null ft laws lim
    reads (bulk_string s) = Reads-bulk_string ft laws lim s
    reads (blob_error s) = Reads-blob_error ft laws lim s
    reads (verbatim_string format s) = Reads-verbatim_string ft laws lim format s
    reads (array xs) = reads_aggregate b'*' array xs (λ rec. refl) (λ v. v) (reads_items xs)
    reads (set xs) = reads_aggregate b'~' set xs (λ rec. refl) (λ v. v) (reads_items xs)
    reads (push xs) = reads_aggregate b'>' push xs (λ rec. refl) (λ v. v) (reads_items xs)
    reads (map kvs) = reads_map kvs (reads_pairs kvs)
    reads (attribute kvs t) = Reads-attribute kvs t (reads_pairs kvs) (reads t)

    reads_items : (xs : Items) → ReadsItems ft laws lim xs
    reads_items no_items = ReadsItems-no_items ft laws lim
    reads_items (item t xs) = ReadsItems-item ft laws lim t xs (reads t) (reads_items xs)

    reads_pairs : (kvs : Pairs) → ReadsPairs ft laws lim kvs
    reads_pairs no_pairs = ReadsPairs-no_pairs ft laws lim
    reads_pairs (pair k t kvs) =
        ReadsPairs-pair ft laws lim k t kvs (reads k) (reads t) (reads_pairs kvs)

  -- Parse returns a sendable value from its serialization, whatever follows it.
  pub parse-serialize :
      (t : RespType) (rest : Bytes)
      → IsSendable lim t
      → length (wire ft t ++ rest) < int_bound
      → parse ft lim (wire ft t ++ rest) ≡ ok t
  unfolding parse at
  parse-serialize t rest v h =
      let s = wire ft t ++ rest in rw (reads t (length s + 1) (omega lens) v [] rest (omega arith))

  -- Parsing a serialization ends behind its last byte.
  pub parse_value-serialize :
      (t : RespType)
      → IsSendable lim t
      → length (wire ft t) < int_bound
      → parse_value ft lim (length (wire ft t) + 1) (record { input = wire ft t; position = 0 })
        ≡ ok (t, record { input = wire ft t; position = length (wire ft t) })
  unfolding at
  parse_value-serialize t v h =
      subst
        (λ s.
          parse_value ft lim (length (wire ft t) + 1) (record { input = s; position = 0 })
          ≡ ok (t, record { input = s; position = length (wire ft t) }))
        (append-nil (wire ft t))
        (reads t (length (wire ft t) + 1) (omega lens) v [] []
          (omega (arith, length-append (wire ft t) [])))
