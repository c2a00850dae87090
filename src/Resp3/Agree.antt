-- ===== src/Resp3/Agree.antt =====
-- The two parsers read every input alike.
mod Rules
use Rules.{Same, Same-pure, Same-fail, Same-if, Same-bind, Same-first, on_result}
use mathlib.Core.Path.{fun_ext}
use go_backend_examples.Common.{
  ℕ, zero, suc, ◌+◌, ◌≤◌, ◌≡◌, ◌≢◌, refl, ap, sym, ◌∙◌, Bool, true, false, Option, none, some,
  Bytes, codes, length, get_or, leb, ltb, ◌==◌, if◌then◌else◌, ℤ, eq_bytes, arith, inl, inr, ◌⊎◌,
  Bool-cases, subst,
}
use go_backend_examples.Strconv.{parse_int}
use go_backend_examples.Resp3.Outcome.{
  Outcome, ParseError, ok, err, panicked, out_of_fuel, bind, bind_assoc, map_ok, invalid_integer,
  invalid_boolean, invalid_verbatim, unknown_type,
}
use go_backend_examples.Resp3.Double.{FloatText, parse_double}
use go_backend_examples.Resp3.Reader.{
  Parser, M, pure, fail, ◌>>=◌, ◌>>◌, read_line, read_count, read_bytes, make_slice, cut_colon,
  >>=_assoc,
}
use go_backend_examples.Resp3.Sealed
use go_backend_examples.Resp3.Sealed.{
  RespType, Items, Pairs, Limits, is_nil, simple_string, error_reply, big_number, double, null,
  bulk_string, blob_error, array, set, push, map, boolean, integer, attribute, verbatim_string,
  item, pair, no_items, no_pairs,
}
use go_backend_examples.Resp3.Tagged
use go_backend_examples.Resp3.Tagged.{Value, with_str}
use go_backend_examples.Resp3.Tagged.Kind
use go_backend_examples.Resp3.Embed.{embed, embed_items, embed_pairs}

Same-blob :
    (kind : Kind.Kind) (c : Bytes → RespType)
    → ((s : Bytes) → embed (c s) ≡ with_str kind s)
    → Same embed (Tagged.parse_blob kind) (Sealed.parse_blob >>= λ s. pure (c s))
unfolding Tagged.parse_blob Sealed.parse_blob
Same-blob kind c h =
    rw (>>=_assoc read_count read_bytes (λ s. pure (c s))) (
      Same-first read_count _ _
        λ n. Same-first (read_bytes n) _ _ λ s. rw (← h s) (Same-pure (c s)))

Same-integer_of :
    (o : Option ℤ) (s : Bytes) → Same embed (Tagged.integer_of o s) (Sealed.integer_of o s)
unfolding Tagged.integer_of Sealed.integer_of embed
Same-integer_of none s = Same-fail (invalid_integer s)
Same-integer_of (some n) s = Same-pure (integer n)

Same-boolean_of : (s : Bytes) → Same embed (Tagged.boolean_of s) (Sealed.boolean_of s)
unfolding Tagged.boolean_of Sealed.boolean_of embed
Same-boolean_of s = Same-if (eq_bytes s (codes "t")) _ _ _ _ (Same-pure (boolean true)) (
    Same-if (eq_bytes s (codes "f")) _ _ _ _ (Same-pure (boolean false))
      (Same-fail (invalid_boolean s)))

Same-verbatim_of :
    (o : Option (Bytes × Bytes)) (s : Bytes)
    → Same embed (Tagged.verbatim_of o s) (Sealed.verbatim_of o s)
unfolding Tagged.verbatim_of Sealed.verbatim_of embed
Same-verbatim_of none s = Same-fail (invalid_verbatim s)
Same-verbatim_of (some (a, b)) s = Same-pure (verbatim_string a b)

Same-verbatim : Same embed Tagged.parse_verbatim Sealed.parse_verbatim_string
unfolding Tagged.parse_verbatim Sealed.parse_verbatim_string
Same-verbatim =
    Same-first read_count _ _
      λ n. Same-first (read_bytes n) _ _ λ s. Same-verbatim_of (cut_colon s) s

-- What follows a count, a `make` and a loop, with the brackets to the right.
behind_count {ℓ κ} :
    {A : Type ℓ} {B : Type κ} (cap : ℕ) (loop : ℕ → M A) (k : A → M B)
    → ((read_count >>= λ n. make_slice cap n >>= λ _. loop n) >>= k)
      ≡ (read_count >>= λ n. make_slice cap n >>= λ _. loop n >>= k)
behind_count cap loop k =
    >>=_assoc read_count _ k
    ∙ ap (λ (rest : ℕ → M _). read_count >>= rest)
        (fun_ext λ n. >>=_assoc (make_slice cap n) (λ _. loop n) k)

-- A value that `m` returns is not nil.
record Solid (m : M RespType) : Type 0 where
  at : (p q : Parser) (v : RespType) → m p ≡ ok (v, q) → is_nil v ≡ false

Solid-pure : (v : RespType) → is_nil v ≡ false → Solid (pure v)
Solid-pure v h = record { at = λ p q w e. ground arith }

Solid-fail : (e : ParseError) → Solid (fail e)
Solid-fail e = record { at = λ p q w h. cc }

Solid-if : (b : Bool) (m n : M RespType) → Solid m → Solid n → Solid (if b then m else n)
Solid-if true m n hm hn = hm
Solid-if false m n hm hn = hn

Solid-bind {ℓ} :
    {A : Type ℓ} (m : M A) (k : A → M RespType) → ((a : A) → Solid (k a)) → Solid (m >>= k)
Solid-bind m k h = record { at = λ p q v e. go (m p) q v e }
  where
    go :
        (r : Outcome (_ × Parser)) (q : Parser) (v : RespType)
        → bind r (λ r'. k r'.0 r'.1) ≡ ok (v, q)
        → is_nil v ≡ false
    go (ok (a, p)) q v e = (h a).at p q v e
    go (err x) q v e = cc
    go panicked q v e = cc
    go out_of_fuel q v e = cc

module _ (ft : FloatText) (lim : Limits) (rec' : M Value) (rec : M RespType)
    (h : Same embed rec' rec) where
  Same-items :
      (n : ℕ)
      → Same embed_items (Tagged.collect_items ft lim rec' n) (Sealed.collect_items ft lim rec n)
  unfolding Tagged.collect_items Sealed.collect_items embed
  Same-items zero = Same-pure no_items
  Same-items (suc n) =
      Same-bind rec' _ rec _ h λ v. Same-bind _ _ _ _ (Same-items n) λ xs. Same-pure (item v xs)

  Same-pairs :
      (n : ℕ)
      → Same embed_pairs (Tagged.collect_pairs ft lim rec' n) (Sealed.collect_pairs ft lim rec n)
  unfolding Tagged.collect_pairs Sealed.collect_pairs embed
  Same-pairs zero = Same-pure no_pairs
  Same-pairs (suc n) = Same-bind rec' _ rec _ h λ k.
      Same-bind rec' _ rec _ h λ v. Same-bind _ _ _ _ (Same-pairs n) λ kvs. Same-pure (pair k v kvs)

  Same-aggregate :
      (kind : Kind.Kind) (c : Items → RespType)
      → ((xs : Items) → embed (c xs) ≡ Tagged.with_items kind (embed_items xs))
      → Same embed
          (Tagged.parse_aggregate ft lim rec' kind)
          (Sealed.parse_items ft lim rec >>= λ xs. pure (c xs))
  unfolding Tagged.parse_aggregate Sealed.parse_items
  Same-aggregate kind c e =
      rw (behind_count lim.item_cap (Sealed.collect_items ft lim rec) (λ xs. pure (c xs))) (
        Same-first read_count _ _ λ n.
          Same-first (make_slice lim.item_cap n) _ _
            λ _. Same-bind _ _ _ _ (Same-items n) λ xs. rw (← e xs) (Same-pure (c xs)))

  Same-read_pairs :
      (n : ℕ)
      → Same embed_pairs
          (Tagged.read_pairs ft lim rec' n)
          (make_slice lim.pair_cap n >>= λ _. Sealed.collect_pairs ft lim rec n)
  unfolding Tagged.read_pairs
  Same-read_pairs n = Same-first (make_slice lim.pair_cap n) _ _ λ _. Same-pairs n

  Same-map :
      Same embed
        (Tagged.parse_map ft lim rec')
        (Sealed.parse_pairs ft lim rec >>= λ kvs. pure (map kvs))
  unfolding Tagged.parse_map Sealed.parse_pairs embed
  Same-map =
      rw
        (>>=_assoc read_count
          (λ n. make_slice lim.pair_cap n >>= λ _. Sealed.collect_pairs ft lim rec n)
          (λ kvs. pure (map kvs)))
        (Same-first read_count _ _
          λ n. Same-bind _ _ _ _ (Same-read_pairs n) λ kvs. Same-pure (map kvs))

  bind_solid :
      (r : Outcome (RespType × Parser)) (kvs : Pairs)
      → ((q : Parser) (v : RespType) → r ≡ ok (v, q) → is_nil v ≡ false)
      → bind
          (map_ok (on_result embed) r)
          (λ r'. ok (Tagged.new_attribute (embed_pairs kvs) r'.0, r'.1))
        ≡ map_ok (on_result embed) (bind r (λ r'. ok (attribute kvs r'.0, r'.1)))
  unfolding embed
  bind_solid (ok (v, q)) kvs solid = rw (solid q v refl)
  bind_solid (err e) kvs solid = refl
  bind_solid panicked kvs solid = refl
  bind_solid out_of_fuel kvs solid = refl

  Same-attribute :
      Solid rec
      → Same embed
          (Tagged.parse_attribute ft lim rec')
          (Sealed.parse_pairs ft lim rec >>= λ kvs. rec >>= λ inner. pure (attribute kvs inner))
  unfolding Tagged.parse_attribute Sealed.parse_pairs
  Same-attribute solid =
      rw
        (>>=_assoc read_count
          (λ n. make_slice lim.pair_cap n >>= λ _. Sealed.collect_pairs ft lim rec n)
          (λ kvs. rec >>= λ inner. pure (attribute kvs inner)))
        (Same-first read_count _ _ λ n.
          Same-bind _ _ _ _ (Same-read_pairs n)
            λ kvs. record { at = λ p. rw (h.at p) (bind_solid (rec p) kvs (solid.at p)) })

  Same-marked :
      Solid rec
      → (m : ℕ) → Same embed (Tagged.parse_marked ft lim rec' m) (Sealed.parse_marked ft lim rec m)
  unfolding Tagged.parse_marked Sealed.parse_marked embed
  Same-marked solid m =
      Same-if (m == b'+') _ _ _ _ (Same-first read_line _ _ λ s. Same-pure (simple_string s)) (
        Same-if (m == b'-') _ _ _ _ (Same-first read_line _ _ λ s. Same-pure (error_reply s)) (
          Same-if (m == b':') _ _ _ _
            (Same-first read_line _ _ λ s. Same-integer_of (parse_int s) s)
            (Same-if (m == b'(') _ _ _ _ (Same-first read_line _ _ λ s. Same-pure (big_number s)) (
              Same-if (m == b',') _ _ _ _
                (Same-first read_line _ _
                  λ s. Same-first (parse_double ft s) _ _ λ x. Same-pure (double x))
                (Same-if (m == b'#') _ _ _ _ (Same-first read_line _ _ Same-boolean_of) (
                  Same-if (m == b'_') _ _ _ _ (Same-first read_line _ _ λ s. Same-pure null) (
                    Same-if (m == b'$') _ _ _ _
                      (Same-blob Kind.kind_bulk_string bulk_string (λ s. refl))
                      (Same-if (m == b'!') _ _ _ _
                        (Same-blob Kind.kind_blob_error blob_error (λ s. refl))
                        (Same-if (m == b'=') _ _ _ _ (Same-verbatim) (
                          Same-if (m == b'*') _ _ _ _
                            (Same-aggregate Kind.kind_array array (λ xs. refl))
                            (Same-if (m == b'~') _ _ _ _
                              (Same-aggregate Kind.kind_set set (λ xs. refl))
                              (Same-if (m == b'>') _ _ _ _
                                (Same-aggregate Kind.kind_push push (λ xs. refl))
                                (Same-if (m == b'%') _ _ _ _ (Same-map) (
                                  Same-if (m == b'|') _ _ _ _ (Same-attribute solid)
                                    (Same-fail (unknown_type m))))))))))))))))

-- For any input, fuel and limits.
module _ (ft : FloatText) (lim : Limits) where
  Solid-integer_of : (o : Option ℤ) (s : Bytes) → Solid (Sealed.integer_of o s)
  unfolding Sealed.integer_of
  Solid-integer_of none s = Solid-fail _
  Solid-integer_of (some n) s = Solid-pure _ refl

  Solid-verbatim_of : (o : Option (Bytes × Bytes)) (s : Bytes) → Solid (Sealed.verbatim_of o s)
  unfolding Sealed.verbatim_of
  Solid-verbatim_of none s = Solid-fail _
  Solid-verbatim_of (some (a, b)) s = Solid-pure _ refl

  Solid-parse_marked : (rec : M RespType) (m : ℕ) → Solid (Sealed.parse_marked ft lim rec m)
  unfolding Sealed.parse_marked Sealed.boolean_of Sealed.parse_verbatim_string
  Solid-parse_marked rec m =
      search (Solid-pure, Solid-fail, Solid-if, Solid-bind, Solid-integer_of, Solid-verbatim_of)
        depth 40

  Solid-parse_value : (f : ℕ) → Solid (Sealed.parse_value ft lim f)
  unfolding Sealed.parse_value
  Solid-parse_value zero = record { at = λ p q v e. cc }
  Solid-parse_value (suc f) = record {
    at = λ p q v e. elim (Bool-cases (leb (length p.input) p.position)) [
      | inl b ↦ ground arith
      | inr b ↦
          (Solid-parse_marked (Sealed.parse_value ft lim f) (get_or p.input p.position 0)).at
            (record p { position = p.position + 1 }) q v (ground arith)
    ];
  }

  Same-parse_value :
      (f : ℕ) → Same embed (Tagged.parse_value ft lim f) (Sealed.parse_value ft lim f)
  unfolding Tagged.parse_value Sealed.parse_value
  Same-parse_value zero = record { at = λ p. refl }
  Same-parse_value (suc f) = record {
    at = λ p. elim (Bool-cases (leb (length p.input) p.position)) [
      | inl b ↦ rw b
      | inr b ↦ rw b (
          (Same-marked ft lim (Tagged.parse_value ft lim f) (Sealed.parse_value ft lim f)
              (Same-parse_value f) (Solid-parse_value f) (get_or p.input p.position 0)).at
            (record p { position = p.position + 1 }))
    ];
  }

  -- On every input the tagged parser does what the sealed one does under the same limits.
  pub parse-embed : (s : Bytes) → Tagged.parse ft lim s ≡ map_ok embed (Sealed.parse ft lim s)
  unfolding Tagged.parse Sealed.parse
  parse-embed s =
      let start : Parser = record { input = s; position = 0 } in
      let run = Sealed.parse_value ft lim (length s + 1) start in
      rw ((Same-parse_value (length s + 1)).at start) (
        bind_assoc run (λ r. ok (on_result embed r)) (λ r. ok r.0)
        ∙ sym (bind_assoc run (λ r. ok r.0) (λ t. ok (embed t))))
