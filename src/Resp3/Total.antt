-- ===== src/Resp3/Total.antt =====
-- The fuel that `parse` gives is enough for every input.
use go_backend_examples.Common.{
  ℕ, zero, suc, ◌+◌, ◌<◌, ◌≢◌, Option, none, some, Bytes, arith, length, get_or, leb, Bool-cases,
  inl, inr, ℤ,
}
use go_backend_examples.Resp3.Outcome.{
  out_of_fuel, holds, failed, Ensures-bind, Ensures-weaken, Ensures-out_of_fuel,
}
use go_backend_examples.Resp3.Double.{FloatText, parse_double, float_of}
use go_backend_examples.Resp3.Reader.{M}
use go_backend_examples.Resp3.Reader.Moves.{
  Ends, Ends-pure, Ends-fail, Ends-if, Ends-bind, Ends-read_line, Ends-read_count, Ends-read_bytes,
  Ends-make_slice,
}
use go_backend_examples.Resp3.Sealed.{
  RespType, Limits, item, pair, parse_blob, verbatim_of, parse_verbatim_string, integer_of,
  boolean_of, collect_items, collect_pairs, parse_items, parse_pairs, parse_marked, parse_value,
  parse,
}

ruleset ends_rules = (
  Ends-pure, Ends-fail, Ends-if, Ends-bind, Ends-read_line, Ends-read_count, Ends-read_bytes,
  Ends-make_slice,
)

Ends-float_of : (f : ℕ) (o : Option ℕ) (s : Bytes) → Ends f (float_of o s)
unfolding float_of
Ends-float_of f none s = search ends_rules
Ends-float_of f (some x) s = search ends_rules

Ends-parse_double : (f : ℕ) (ft : FloatText) (s : Bytes) → Ends f (parse_double ft s)
unfolding parse_double
Ends-parse_double f ft s = search (ends_rules, Ends-float_of)

Ends-integer_of : (f : ℕ) (o : Option ℤ) (s : Bytes) → Ends f (integer_of o s)
unfolding integer_of
Ends-integer_of f none s = search ends_rules
Ends-integer_of f (some x) s = search ends_rules

Ends-boolean_of : (f : ℕ) (s : Bytes) → Ends f (boolean_of s)
unfolding boolean_of
Ends-boolean_of f s = search ends_rules

Ends-verbatim_of : (f : ℕ) (o : Option (Bytes × Bytes)) (s : Bytes) → Ends f (verbatim_of o s)
unfolding verbatim_of
Ends-verbatim_of f none s = search ends_rules
Ends-verbatim_of f (some (a, b)) s = search ends_rules

Ends-parse_blob : (f : ℕ) → Ends f parse_blob
unfolding parse_blob
Ends-parse_blob f = search ends_rules

Ends-parse_verbatim_string : (f : ℕ) → Ends f parse_verbatim_string
unfolding parse_verbatim_string
Ends-parse_verbatim_string f = search (ends_rules, Ends-verbatim_of)

module _ (ft : FloatText) (lim : Limits) (f : ℕ) (rec : M RespType) (h : Ends f rec) where
  Ends-collect_items : (n : ℕ) → Ends f (collect_items ft lim rec n)
  unfolding collect_items
  Ends-collect_items zero = search ends_rules
  Ends-collect_items (suc n) =
      Ends-bind _ _ h λ v. Ends-bind _ _ (Ends-collect_items n) λ xs. Ends-pure (item v xs)

  Ends-collect_pairs : (n : ℕ) → Ends f (collect_pairs ft lim rec n)
  unfolding collect_pairs
  Ends-collect_pairs zero = search ends_rules
  Ends-collect_pairs (suc n) =
      Ends-bind _ _ h λ k.
        Ends-bind _ _ h λ v. Ends-bind _ _ (Ends-collect_pairs n) λ kvs. Ends-pure (pair k v kvs)

  Ends-parse_items : Ends f (parse_items ft lim rec)
  unfolding parse_items
  Ends-parse_items = search (ends_rules, Ends-collect_items)

  Ends-parse_pairs : Ends f (parse_pairs ft lim rec)
  unfolding parse_pairs
  Ends-parse_pairs = search (ends_rules, Ends-collect_pairs)

  Ends-parse_marked : (m : ℕ) → Ends f (parse_marked ft lim rec m)
  unfolding parse_marked
  Ends-parse_marked m =
      search
        (
          ends_rules, Ends-parse_double, Ends-integer_of, Ends-boolean_of, Ends-parse_blob,
          Ends-parse_verbatim_string, Ends-parse_items, Ends-parse_pairs,
        )
        depth 40

module _ (ft : FloatText) (lim : Limits) where
  Ends-parse_value : (f : ℕ) → Ends f (parse_value ft lim f)
  unfolding parse_value
  Ends-parse_value zero = record { at = λ p i h. absurd (omega arith) }
  Ends-parse_value (suc f) = record {
    at = λ p i h. elim (Bool-cases (leb (length p.input) p.position)) [
      | inl e ↦ rw e failed
      | inr e ↦
          let more : p.position < length p.input = ground arith in
          rw e (
            Ensures-weaken
              ((Ends-parse_marked ft lim f (parse_value ft lim f) (Ends-parse_value f)
                  (get_or p.input p.position 0)).at
                (record p { position = p.position + 1 }) (omega arith) (omega arith))
              λ r w. record { same = w.same; forward = omega arith; inside = w.inside })
    ];
  }

  -- Parse ends on every input, with a value, an error or a panic.
  pub parse-ne-out_of_fuel : (s : Bytes) → parse ft lim s ≢ out_of_fuel
  unfolding parse
  parse-ne-out_of_fuel s = Ensures-out_of_fuel {P = λ v. Unit {0}} (
      Ensures-bind
        ((Ends-parse_value (length s + 1)).at (record { input = s; position = 0 }) (omega arith)
          (omega arith))
        λ r w. holds tt)
