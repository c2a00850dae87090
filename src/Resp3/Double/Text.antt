-- ===== src/Resp3/Double/Text.antt =====
-- The text of a double is one line, and is read back.
use go_backend_examples.Common.{
  ℕ, ◌<◌, ◌≡◌, ◌≢◌, refl, true, false, Bytes, codes, All, eq_bytes, eq_bytes→eq, ◌==◌, Bool-cases,
  inl, inr, arith, [], ◌∷◌, subst, sym, ==_iff,
}
use go_backend_examples.Resp3.Outcome.{ok}
use go_backend_examples.Resp3.Reader.{Parser}
use go_backend_examples.Resp3.Reader.Lines.{IsLine}
use go_backend_examples.Resp3.Double.{
  FloatText, IsFloatText, IsFinite, is_nan, nan, plus_inf, minus_inf, format_double, parse_double,
  float_of,
}

abbrev LacksN : Bytes → Type 0
LacksN = All (λ c. (c ≢ b'\n') × (c ≢ b'n'))

-- A text without the letter differs from one that has it.
LacksN-ne : (s t : Bytes) → LacksN s → ¬ LacksN t → eq_bytes s t ≡ false
LacksN-ne s t h k = elim (Bool-cases (eq_bytes s t)) [
  | inl e ↦ absurd (k (subst LacksN (eq_bytes→eq s t e) h))
  | inr e ↦ e
]

-- The float is finite, or one of the three special values.
data Class (f : ℕ) : Type 0 where
  is_nan_value : f ≡ nan → Class f
  is_plus_inf : f ≡ plus_inf → Class f
  is_minus_inf : f ≡ minus_inf → Class f
  is_finite : IsFinite f → Class f

Class-of : (f : ℕ) → f < 18446744073709551616 → (is_nan f ≡ true → f ≡ nan) → Class f
Class-of f h k = elim (Bool-cases (is_nan f)) [
  | inl e ↦ is_nan_value (k e)
  | inr e ↦ elim (Bool-cases (f == plus_inf)) [
    | inl p ↦ is_plus_inf ((==_iff f plus_inf).0 p)
    | inr p ↦ elim (Bool-cases (f == minus_inf)) [
      | inl q ↦ is_minus_inf ((==_iff f minus_inf).0 q)
      | inr q ↦ is_finite (h, ground arith, ground arith, e)
    ]
  ]
]

module _ (ft : FloatText) where
  format_double-finite : (f : ℕ) → IsFinite f → format_double ft f ≡ ft.format_float f
  unfolding format_double
  format_double-finite f (h, p, m, e) = rw e (ground arith)

  format_double-nan : format_double ft nan ≡ codes "nan"
  unfolding format_double is_nan
  format_double-nan = refl

  format_double-plus_inf : format_double ft plus_inf ≡ codes "inf"
  unfolding format_double is_nan
  format_double-plus_inf = refl

  format_double-minus_inf : format_double ft minus_inf ≡ codes "-inf"
  unfolding format_double is_nan
  format_double-minus_inf = refl

  pub format_double-IsLine :
      (f : ℕ)
      → IsFloatText ft
      → f < 18446744073709551616
      → (is_nan f ≡ true → f ≡ nan)
      → IsLine (format_double ft f)
  format_double-IsLine f laws h k = go (Class-of f h k)
    where
      lines : (s : Bytes) → LacksN s → IsLine s
      lines [] a = tt
      lines (c ∷ s) a = (a.0.0, lines s a.1)

      go : Class f → IsLine (format_double ft f)
      go (is_nan_value e) =
          subst (λ x. IsLine (format_double ft x)) (sym e) (rw format_double-nan (omega arith))
      go (is_plus_inf e) =
          subst (λ x. IsLine (format_double ft x)) (sym e) (rw format_double-plus_inf (omega arith))
      go (is_minus_inf e) =
          subst (λ x. IsLine (format_double ft x)) (sym e)
            (rw format_double-minus_inf (omega arith))
      go (is_finite e) = rw (format_double-finite f e) (lines _ (laws.plain f e))

  pub parse_double-format_double :
      (f : ℕ) (p : Parser)
      → IsFloatText ft
      → f < 18446744073709551616
      → (is_nan f ≡ true → f ≡ nan)
      → parse_double ft (format_double ft f) p ≡ ok (f, p)
  unfolding parse_double float_of
  parse_double-format_double f p laws h k = go (Class-of f h k)
    where
      Reads : ℕ → Type 0
      Reads x = parse_double ft (format_double ft x) p ≡ ok (x, p)

      go : Class f → Reads f
      go (is_nan_value e) =
          subst Reads (sym e) (rw format_double-nan (unfold parse_double eq_bytes in refl))
      go (is_plus_inf e) =
          subst Reads (sym e) (rw format_double-plus_inf (unfold parse_double eq_bytes in refl))
      go (is_minus_inf e) =
          subst Reads (sym e) (rw format_double-minus_inf (unfold parse_double eq_bytes in refl))
      go (is_finite e) =
          let plain = laws.plain f e in
          let s = ft.format_float f in
          rw (
            format_double-finite f e,
            LacksN-ne s (codes "inf") plain (λ a. a.1.0.1 refl),
            LacksN-ne s (codes "-inf") plain (λ a. a.1.1.0.1 refl),
            LacksN-ne s (codes "nan") plain (λ a. a.0.1 refl),
            laws.exact f e,
            parse_double,
            float_of,
          )
