-- ===== src/Resp3/Codec.antt =====
-- What a client of either RESP3 package can rely on, and the inputs on which the parsers panic.
use go_backend_examples.Common.{
  ◌⊎◌, inl, inr, Option, none, ℕ, ◌+◌, ◌≤◌, ◌<◌, ◌≡◌, ◌≢◌, refl, ap, ◌∙◌, sym, some, [], ◌∷◌, ◌++◌,
  Bytes, length, int_bound, lt→ltb, le→leb, subst,
}
use native.Mathlib.Numerals.{add-one}
use go_backend_examples.Strconv.{itoa}
use go_backend_examples.Resp3.Outcome.{Outcome, ok, err, panicked, out_of_fuel, map_ok}
use go_backend_examples.Resp3.Double.{FloatText, IsFloatText}
use go_backend_examples.Resp3.Reader.{Parser, crlf, read_bytes, make_slice}
use go_backend_examples.Resp3.Reader.Lines.{at, read_count-at}
use go_backend_examples.Resp3.Sealed
use go_backend_examples.Resp3.Sealed.{RespType, Limits}
use go_backend_examples.Resp3.Tagged
use go_backend_examples.Resp3.Tagged.{Value}
use go_backend_examples.Resp3.Embed.{embed, IsSendable}
use go_backend_examples.Resp3.Embed.Serialize.{HasNoNil, serialize-embed, serialize_no_nil}
use go_backend_examples.Resp3.RoundTrip.{parse-serialize}
use go_backend_examples.Resp3.RoundTrip.Shapes.{parse_value-step}
use go_backend_examples.Resp3.Total
use go_backend_examples.Resp3.Agree.{parse-embed}

-- What sealed_interface's Serialize returns is what tagged_union's writes for the same value, and the
-- value has no nil where Serialize would panic on it.
pub serialize_agrees :
    (ft : FloatText) (t : RespType) (s : Bytes)
    → Sealed.serialize ft t ≡ some s
    → (Tagged.serialize ft (embed t) ≡ s) × HasNoNil t
serialize_agrees ft t s e =
    let whole = serialize_no_nil ft t s e in (cc (serialize-embed ft t whole), whole)

-- For a value without a nil element, key or value, sealed_interface's Serialize does not panic and
-- returns what tagged_union's writes for the same value.
pub serialize_returns :
    (ft : FloatText) (t : RespType)
    → HasNoNil t
    → Sealed.serialize ft t ≡ some (Tagged.serialize ft (embed t))
serialize_returns ft t h = serialize-embed ft t h

-- Every value either has no nil element, key or value, and then sealed_interface's Serialize returns
-- what tagged_union's writes for the same value, or it has one, and then Serialize panics.
pub serialize-HasNoNil :
    (ft : FloatText) (t : RespType)
    → (HasNoNil t × (Sealed.serialize ft t ≡ some (Tagged.serialize ft (embed t))))
      ⊎ (¬ HasNoNil t × (Sealed.serialize ft t ≡ none))
serialize-HasNoNil ft t = returned (Sealed.serialize ft t) refl
  where
    returned :
        (o : Option Bytes)
        → Sealed.serialize ft t ≡ o
        → (HasNoNil t × (Sealed.serialize ft t ≡ some (Tagged.serialize ft (embed t))))
          ⊎ (¬ HasNoNil t × (Sealed.serialize ft t ≡ none))
    returned (some s) e =
        let whole = serialize_no_nil ft t s e in inl (whole, serialize-embed ft t whole)
    returned none e = inr ((λ whole. cc (serialize-embed ft t whole, e)), e)

module _ (ft : FloatText) (lim : Limits) where
  -- sealed_interface: Parse reads back a value from what its Serialize returned, whatever bytes
  -- follow, if the value is sendable, the text of floats is faithful and the input is indexed by an int.
  pub sealed_round_trip :
      (t : RespType) (s rest : Bytes)
      → IsFloatText ft
      → IsSendable lim t
      → Sealed.serialize ft t ≡ some s
      → length (s ++ rest) < int_bound
      → Sealed.parse ft lim (s ++ rest) ≡ ok t
  sealed_round_trip t s rest laws v e h =
      let same = (serialize_agrees ft t s e).0 in
      subst (λ x. length (x ++ rest) < int_bound → Sealed.parse ft lim (x ++ rest) ≡ ok t) same
        (parse-serialize ft laws lim t rest v) h

  -- tagged_union: Parse reads back the value that the constructors build for a sendable value, from
  -- what Serialize wrote, whatever bytes follow, if the text of floats is faithful and the input is
  -- indexed by an int.
  pub tagged_round_trip :
      (t : RespType) (rest : Bytes)
      → IsFloatText ft
      → IsSendable lim t
      → length (Tagged.serialize ft (embed t) ++ rest) < int_bound
      → Tagged.parse ft lim (Tagged.serialize ft (embed t) ++ rest) ≡ ok (embed t)
  tagged_round_trip t rest laws v h =
      parse-embed ft lim _ ∙ ap (map_ok embed) (parse-serialize ft laws lim t rest v h)

  map_ok-out_of_fuel : (r : Outcome RespType) → map_ok embed r ≡ out_of_fuel → r ≡ out_of_fuel
  map_ok-out_of_fuel (ok t) h = cc
  map_ok-out_of_fuel (err e) h = cc
  map_ok-out_of_fuel panicked h = cc
  map_ok-out_of_fuel out_of_fuel h = refl

  -- Neither parser runs out of the fuel that the model gives it: each ends on every input, with a
  -- value, an error or a panic.
  pub parse_ends :
      (s : Bytes) → (Sealed.parse ft lim s ≢ out_of_fuel) × (Tagged.parse ft lim s ≢ out_of_fuel)
  parse_ends s =
      let sealed = Total.parse-ne-out_of_fuel ft lim s in
      (sealed, λ h. sealed (map_ok-out_of_fuel _ (sym (parse-embed ft lim s) ∙ h)))

  -- What stands behind the first byte decides how Parse ends.
  pub parse-first :
      (m : ℕ) (s : Bytes) (r : Outcome (RespType × Parser))
      → ((f : ℕ) → Sealed.parse_marked ft lim (Sealed.parse_value ft lim f) m (at (m ∷ []) s) ≡ r)
      → Sealed.parse ft lim (m ∷ s) ≡ map_ok (λ x. x.0) r
  unfolding Sealed.parse at
  parse-first m s r h =
      let start = parse_value-step ft lim (length (m ∷ s)) [] m s ∙ h (length (m ∷ s)) in
      rw (add-one (length (m ∷ s))) (rw start)

  -- A panic behind the first byte is a panic of both parsers.
  both_panic :
      (m : ℕ) (s : Bytes)
      → ((f : ℕ)
          → Sealed.parse_marked ft lim (Sealed.parse_value ft lim f) m (at (m ∷ []) s) ≡ panicked)
      → (Sealed.parse ft lim (m ∷ s) ≡ panicked) × (Tagged.parse ft lim (m ∷ s) ≡ panicked)
  both_panic m s h =
      let sealed = parse-first m s panicked h in
      (sealed, parse-embed ft lim (m ∷ s) ∙ ap (map_ok embed) sealed)

  -- A bulk string whose announced length is below 2 ^ 63 and, added to the position behind its header,
  -- reaches 2 ^ 63 makes both parsers panic, whatever follows.
  pub blob_length_overflow :
      (n : ℕ) (rest : Bytes)
      → n < int_bound
      → int_bound ≤ length (b'$' ∷ (itoa n ++ crlf)) + n
      → (Sealed.parse ft lim (b'$' ∷ (itoa n ++ (crlf ++ rest))) ≡ panicked)
        × (Tagged.parse ft lim (b'$' ∷ (itoa n ++ (crlf ++ rest))) ≡ panicked)
  unfolding Sealed.parse_marked Sealed.parse_blob read_bytes at
  blob_length_overflow n rest h wraps = both_panic b'$' _ λ f.
      let front = b'$' ∷ (itoa n ++ crlf) in
      rw (
        read_count-at (b'$' ∷ []) rest n h,
        le→leb int_bound (length front + n) wraps,
        Sealed.parse_marked,
        Sealed.parse_blob,
        read_bytes,
        at,
      )

  -- An array whose announced length is below 2 ^ 63 and refused by `make` makes both parsers panic,
  -- whatever follows.
  pub array_length_panic :
      (n : ℕ) (rest : Bytes)
      → n < int_bound
      → lim.item_cap < n
      → (Sealed.parse ft lim (b'*' ∷ (itoa n ++ (crlf ++ rest))) ≡ panicked)
        × (Tagged.parse ft lim (b'*' ∷ (itoa n ++ (crlf ++ rest))) ≡ panicked)
  unfolding Sealed.parse_marked Sealed.parse_items make_slice
  array_length_panic n rest h big = both_panic b'*' _ λ f. rw (
    read_count-at (b'*' ∷ []) rest n h,
    lt→ltb lim.item_cap n big,
    Sealed.parse_marked,
    Sealed.parse_items,
    make_slice,
  )
