-- ===== src/Resp3/RoundTrip/Elements.antt =====
-- The elements of an aggregate and the pairs of a map, read back.
use go_backend_examples.Common.{
  ℕ, ◌<◌, ◌≡◌, ◌++◌, append_assoc, append-nil, Bytes, length, length-append,
}
use go_backend_examples.Strconv.{itoa}
use go_backend_examples.Resp3.Outcome.{ok}
use go_backend_examples.Resp3.Double.{FloatText, IsFloatText}
use go_backend_examples.Resp3.Reader.{crlf}
use go_backend_examples.Resp3.Reader.Lines.{at, read_count-at, make_slice-at}
use go_backend_examples.Resp3.Sealed.{
  RespType, Items, Pairs, no_items, item, no_pairs, pair, len_items, len_pairs, Limits, parse_value,
  collect_items, collect_pairs, parse_items, parse_pairs,
}
use go_backend_examples.Resp3.Tagged
use go_backend_examples.Resp3.Embed.{embed, IsSendable, AllSendable, PairsSendable, Fits}
use go_backend_examples.Resp3.RoundTrip.Shapes.{Indexed, lens}
use go_backend_examples.Resp3.RoundTrip.Scalars.{wire, wire_items, wire_pairs, Reads}

module _ (ft : FloatText) (laws : IsFloatText ft) (lim : Limits) where
  -- The elements behind a count are read in turn.
  abbrev pub ReadsItems : Items → Type 0
  ReadsItems xs =
      (f : ℕ)
      → length (wire_items ft xs) < f
      → AllSendable lim xs
      → (before rest : Bytes) → Indexed before (wire_items ft xs ++ rest)
      → collect_items ft lim (parse_value ft lim f) (len_items xs)
          (at before (wire_items ft xs ++ rest))
        ≡ ok (xs, at (before ++ wire_items ft xs) rest)

  abbrev pub ReadsPairs : Pairs → Type 0
  ReadsPairs kvs =
      (f : ℕ)
      → length (wire_pairs ft kvs) < f
      → PairsSendable lim kvs
      → (before rest : Bytes) → Indexed before (wire_pairs ft kvs ++ rest)
      → collect_pairs ft lim (parse_value ft lim f) (len_pairs kvs)
          (at before (wire_pairs ft kvs ++ rest))
        ≡ ok (kvs, at (before ++ wire_pairs ft kvs) rest)

  pub ReadsItems-no_items : ReadsItems no_items
  unfolding Tagged.serialize embed collect_items
  ReadsItems-no_items f h v before rest b = simp append-nil

  pub ReadsItems-item :
      (t : RespType) (xs : Items) → Reads ft laws lim t → ReadsItems xs → ReadsItems (item t xs)
  unfolding Tagged.serialize embed IsSendable collect_items
  ReadsItems-item t xs rt rxs f h v before rest b =
      let size = length-append (wire ft t) (wire_items ft xs) in
      let size' = length-append (wire ft t ++ wire_items ft xs) rest in
      rw
        (
          append_assoc (wire ft t) (wire_items ft xs) rest,
          rt f (omega lens) v.0 before (wire_items ft xs ++ rest) (omega (lens, size, size')),
          rxs f (omega lens) v.1 (before ++ wire ft t) rest (omega (lens, size, size')),
        )
        (simp append_assoc)

  pub ReadsPairs-no_pairs : ReadsPairs no_pairs
  unfolding Tagged.serialize embed collect_pairs
  ReadsPairs-no_pairs f h v before rest b = simp append-nil

  pub ReadsPairs-pair :
      (k t : RespType) (kvs : Pairs)
      → Reads ft laws lim k
      → Reads ft laws lim t
      → ReadsPairs kvs
      → ReadsPairs (pair k t kvs)
  unfolding Tagged.serialize embed IsSendable collect_pairs
  ReadsPairs-pair k t kvs rk rt rkvs f h v before rest b =
      let key = wire ft k in
      let body = wire ft t in
      let more = wire_pairs ft kvs in
      let size = length-append key (body ++ more) in
      let size' = length-append (key ++ (body ++ more)) rest in
      let size'' = length-append body more in
      rw
        (
          append_assoc key (body ++ more) rest,
          append_assoc body more rest,
          rk f (omega lens) v.0 before (body ++ (more ++ rest)) (omega (lens, size, size', size'')),
          rt f (omega lens) v.1 (before ++ key) (more ++ rest) (omega (lens, size, size', size'')),
          rkvs f (omega lens) v.2 (before ++ key ++ body) rest (omega (lens, size, size', size'')),
        )
        (simp append_assoc)

  -- A count, and the elements or pairs behind it.
  pub parse_items-at :
      (xs : Items) (f : ℕ) (before rest : Bytes)
      → ReadsItems xs
      → Fits lim.item_cap (len_items xs)
      → AllSendable lim xs
      → length (wire_items ft xs) < f
      → Indexed before (itoa (len_items xs) ++ (crlf ++ (wire_items ft xs ++ rest)))
      → parse_items ft lim
          (parse_value ft lim f)
          (at before (itoa (len_items xs) ++ (crlf ++ (wire_items ft xs ++ rest))))
        ≡ ok (xs, at (before ++ (itoa (len_items xs) ++ (crlf ++ wire_items ft xs))) rest)
  unfolding parse_items
  parse_items-at xs f before rest reads fits v h b =
      let front = before ++ (itoa (len_items xs) ++ crlf) in
      rw
        (
          read_count-at before (wire_items ft xs ++ rest) (len_items xs) fits.1,
          make_slice-at lim.item_cap (len_items xs) (at front (wire_items ft xs ++ rest)) fits.0,
          reads f h v front rest (omega lens),
        )
        (simp append_assoc)

  pub parse_pairs-at :
      (kvs : Pairs) (f : ℕ) (before rest : Bytes)
      → ReadsPairs kvs
      → Fits lim.pair_cap (len_pairs kvs)
      → PairsSendable lim kvs
      → length (wire_pairs ft kvs) < f
      → Indexed before (itoa (len_pairs kvs) ++ (crlf ++ (wire_pairs ft kvs ++ rest)))
      → parse_pairs ft lim
          (parse_value ft lim f)
          (at before (itoa (len_pairs kvs) ++ (crlf ++ (wire_pairs ft kvs ++ rest))))
        ≡ ok (kvs, at (before ++ (itoa (len_pairs kvs) ++ (crlf ++ wire_pairs ft kvs))) rest)
  unfolding parse_pairs
  parse_pairs-at kvs f before rest reads fits v h b =
      let front = before ++ (itoa (len_pairs kvs) ++ crlf) in
      rw
        (
          read_count-at before (wire_pairs ft kvs ++ rest) (len_pairs kvs) fits.1,
          make_slice-at lim.pair_cap (len_pairs kvs) (at front (wire_pairs ft kvs ++ rest)) fits.0,
          reads f h v front rest (omega lens),
        )
        (simp append_assoc)
