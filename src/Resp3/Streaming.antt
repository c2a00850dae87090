-- ===== src/Resp3/Streaming.antt =====
-- Parsing an input that is still growing: what more bytes change.
use go_backend_examples.Common.{
  ℕ, zero, suc, ◌+◌, ◌<◌, ◌≤◌, ◌≡◌, ◌≢◌, refl, Option, none, some, Bytes, ◌++◌, arith, length,
  length-append, get_or, leb, false, Bool-cases, inl, inr, ℤ,
}
use go_backend_examples.Resp3.Outcome.{Outcome, ok, err, out_of_fuel, incomplete, map_ok}
use go_backend_examples.Resp3.Double.{FloatText, parse_double, float_of}
use go_backend_examples.Resp3.Reader.{Parser, M}
use go_backend_examples.Resp3.Reader.Lines.{leb-false}
use go_backend_examples.Resp3.Total.{parse-ne-out_of_fuel}
use go_backend_examples.Resp3.Reader.Longer.{
  Later, short, unfuelled, both_ok, both_err, both_panic, Extends, Extends-pure, Extends-fail,
  Extends-if, Extends-bind, Extends-read_line, Extends-read_count, Extends-read_bytes,
  Extends-make_slice, get_or-append,
}
use go_backend_examples.Resp3.Sealed.{
  RespType, Limits, item, pair, parse_blob, verbatim_of, parse_verbatim_string, integer_of,
  boolean_of, collect_items, collect_pairs, parse_items, parse_pairs, parse_marked, parse_value,
  parse,
}

ruleset extends_rules = (
  Extends-pure, Extends-fail, Extends-if, Extends-bind, Extends-read_line, Extends-read_count,
  Extends-read_bytes, Extends-make_slice,
)

module _ (s rest : Bytes) where
  Extends-float_of : (o : Option ℕ) (b : Bytes) → Extends s rest (float_of o b) (float_of o b)
  unfolding float_of
  Extends-float_of none b = search extends_rules
  Extends-float_of (some x) b = search extends_rules

  Extends-parse_double :
      (ft : FloatText) (b : Bytes) → Extends s rest (parse_double ft b) (parse_double ft b)
  unfolding parse_double
  Extends-parse_double ft b = search (extends_rules, Extends-float_of)

  Extends-integer_of : (o : Option ℤ) (b : Bytes) → Extends s rest (integer_of o b) (integer_of o b)
  unfolding integer_of
  Extends-integer_of none b = search extends_rules
  Extends-integer_of (some x) b = search extends_rules

  Extends-boolean_of : (b : Bytes) → Extends s rest (boolean_of b) (boolean_of b)
  unfolding boolean_of
  Extends-boolean_of b = search extends_rules

  Extends-verbatim_of :
      (o : Option (Bytes × Bytes)) (b : Bytes) → Extends s rest (verbatim_of o b) (verbatim_of o b)
  unfolding verbatim_of
  Extends-verbatim_of none b = search extends_rules
  Extends-verbatim_of (some (x, y)) b = search extends_rules

  Extends-parse_blob : Extends s rest parse_blob parse_blob
  unfolding parse_blob
  Extends-parse_blob = search extends_rules

  Extends-parse_verbatim_string : Extends s rest parse_verbatim_string parse_verbatim_string
  unfolding parse_verbatim_string
  Extends-parse_verbatim_string = search (extends_rules, Extends-verbatim_of)

  module _ (ft : FloatText) (lim : Limits) (rec rec' : M RespType)
      (h : Extends s rest rec rec') where
    Extends-collect_items :
        (n : ℕ) → Extends s rest (collect_items ft lim rec n) (collect_items ft lim rec' n)
    unfolding collect_items
    Extends-collect_items zero = search extends_rules
    Extends-collect_items (suc n) =
        Extends-bind _ _ _ _ h
          λ v. Extends-bind _ _ _ _ (Extends-collect_items n) λ xs. Extends-pure (item v xs)

    Extends-collect_pairs :
        (n : ℕ) → Extends s rest (collect_pairs ft lim rec n) (collect_pairs ft lim rec' n)
    unfolding collect_pairs
    Extends-collect_pairs zero = search extends_rules
    Extends-collect_pairs (suc n) = Extends-bind _ _ _ _ h λ k.
        Extends-bind _ _ _ _ h
          λ v. Extends-bind _ _ _ _ (Extends-collect_pairs n) λ kvs. Extends-pure (pair k v kvs)

    Extends-parse_items : Extends s rest (parse_items ft lim rec) (parse_items ft lim rec')
    unfolding parse_items
    Extends-parse_items = search (extends_rules, Extends-collect_items)

    Extends-parse_pairs : Extends s rest (parse_pairs ft lim rec) (parse_pairs ft lim rec')
    unfolding parse_pairs
    Extends-parse_pairs = search (extends_rules, Extends-collect_pairs)

    Extends-parse_marked :
        (m : ℕ) → Extends s rest (parse_marked ft lim rec m) (parse_marked ft lim rec' m)
    unfolding parse_marked
    Extends-parse_marked m =
        search
          (
            extends_rules, Extends-parse_double, Extends-integer_of, Extends-boolean_of,
            Extends-parse_blob, Extends-parse_verbatim_string, Extends-parse_items,
            Extends-parse_pairs,
          )
          depth 40

-- A whole run on `s`, given how the run on the longer input is related to it.
same_end :
    {s rest : Bytes} {r r' : Outcome (RespType × Parser)}
    → Later s rest r r'
    → map_ok (λ x. x.0) r ≢ err incomplete
    → map_ok (λ x. x.0) r ≢ out_of_fuel
    → map_ok (λ x. x.0) r' ≡ map_ok (λ x. x.0) r
same_end short h g = absurd (h refl)
same_end unfuelled h g = absurd (g refl)
same_end (both_ok a j l) h g = refl
same_end (both_err e) h g = refl
same_end both_panic h g = refl

pub ends_short :
    {s rest : Bytes} {r r' : Outcome (RespType × Parser)} (t : RespType) (q : Parser)
    → Later s rest r r'
    → map_ok (λ x. x.0) r ≢ out_of_fuel
    → r' ≡ ok (t, q)
    → length s < q.position
    → map_ok (λ x. x.0) r ≡ err incomplete
ends_short t q short g e h = refl
ends_short t q unfuelled g e h = absurd (g refl)
ends_short t q (both_ok a j l) g e h =
    let same : j ≡ q.position = cc e in absurd (omega (arith, same, l, h))
ends_short t q (both_err x) g e h = cc
ends_short t q both_panic g e h = cc

module _ (ft : FloatText) (lim : Limits) where
  Extends-parse_value :
      (s rest : Bytes) (f g : ℕ)
      → f ≤ g
      → Extends s rest (parse_value ft lim f) (parse_value ft lim g)
  unfolding parse_value
  Extends-parse_value s rest zero g h = record { on = λ i l. unfuelled }
  Extends-parse_value s rest (suc f) zero h = absurd (omega (arith, h))
  Extends-parse_value s rest (suc f) (suc g) h = record {
    on = λ i l. elim (Bool-cases (leb (length s) i)) [
      | inl e ↦ rw e short
      | inr e ↦
          let more : i < length s = ground arith in
          let still : leb (length (s ++ rest)) i ≡ false =
            leb-false (length (s ++ rest)) i (omega (arith, length-append s rest)) in
          rw (e, still, get_or-append i s rest 0 more)
            ((Extends-parse_marked s rest ft lim (parse_value ft lim f) (parse_value ft lim g)
                (Extends-parse_value s rest f g (omega (arith, h))) (get_or s i 0)).on
              (i + 1) (omega arith))
    ];
  }

  pub later :
      (s rest : Bytes)
      → Later s rest
          (parse_value ft lim (length s + 1) (record { input = s; position = 0 }))
          (parse_value ft lim (length (s ++ rest) + 1) (record { input = s ++ rest; position = 0 }))
  later s rest =
      (Extends-parse_value s rest (length s + 1) (length (s ++ rest) + 1)
          (omega (arith, length-append s rest))).on
        0 (omega arith)

  pub sealed-append :
      (s rest : Bytes) → parse ft lim s ≢ err incomplete → parse ft lim (s ++ rest) ≡ parse ft lim s
  unfolding parse
  sealed-append s rest h = same_end (later s rest) h (parse-ne-out_of_fuel ft lim s)
