-- ===== src/Log/Tracer/Cleaned.antt =====
-- What cleanSQL makes of a statement.
use go_backend_examples.Common.{
  ℕ, ◌≡◌, refl, Bool, false, ◌==◌, Bool-cases, inl, inr, [], ◌∷◌, Bytes, All,
}
use go_backend_examples.Log.Tracer.{
  replace_spaces, is_space, trim_left, keep, trim_right, clean_sql,
}

-- Text without a line break and without a tab.
abbrev pub OneLine : Bytes → Type 0
OneLine = All (λ c. ((c == b'\n') ≡ false) × ((c == b'\t') ≡ false))

abbrev pub first_space : Bytes → Bool
first_space [] = false
first_space (c ∷ s) = is_space c

abbrev pub last_space : Bytes → Bool
last_space [] = false
last_space (c ∷ []) = is_space c
last_space (c ∷ d ∷ s) = last_space (d ∷ s)

replace_spaces-OneLine : (s : Bytes) → OneLine (replace_spaces s)
replace_spaces-OneLine [] = tt
replace_spaces-OneLine (c ∷ s) = elim (Bool-cases (c == b'\n')) [
  | inl e ↦ rw e ((refl, refl), replace_spaces-OneLine s)
  | inr e ↦ elim (Bool-cases (c == b'\t')) [
    | inl f ↦ rw (e, f) (replace_spaces-OneLine s)
    | inr f ↦ rw (e, f) ((e, f), replace_spaces-OneLine s)
  ]
]

trim_left-OneLine : (s : Bytes) → OneLine s → OneLine (trim_left s)
trim_left-OneLine [] h = tt
trim_left-OneLine (c ∷ s) (p, h) = elim (Bool-cases (is_space c)) [
  | inl e ↦ rw e (trim_left-OneLine s h)
  | inr e ↦ rw e (p, h)
]

keep-OneLine : (c : ℕ) (s : Bytes) → OneLine (c ∷ s) → OneLine (keep c s)
keep-OneLine c [] h = elim (Bool-cases (is_space c)) [ inl e ↦ rw e tt | inr e ↦ rw e h ]
keep-OneLine c (d ∷ s) h = h

trim_right-OneLine : (s : Bytes) → OneLine s → OneLine (trim_right s)
trim_right-OneLine [] h = tt
trim_right-OneLine (c ∷ s) (p, h) = keep-OneLine c (trim_right s) (p, trim_right-OneLine s h)

first_space-trim_left : (s : Bytes) → first_space (trim_left s) ≡ false
first_space-trim_left [] = refl
first_space-trim_left (c ∷ s) = elim (Bool-cases (is_space c)) [
  | inl e ↦ rw e (first_space-trim_left s)
  | inr e ↦ rw e e
]

first_space-keep : (c : ℕ) (s : Bytes) → is_space c ≡ false → first_space (keep c s) ≡ false
first_space-keep c [] h = rw h h
first_space-keep c (d ∷ s) h = h

first_space-trim_right : (s : Bytes) → first_space s ≡ false → first_space (trim_right s) ≡ false
first_space-trim_right [] h = refl
first_space-trim_right (c ∷ s) h = first_space-keep c (trim_right s) h

last_space-keep : (c : ℕ) (s : Bytes) → last_space s ≡ false → last_space (keep c s) ≡ false
last_space-keep c [] h = elim (Bool-cases (is_space c)) [ inl e ↦ rw e | inr e ↦ rw e e ]
last_space-keep c (d ∷ s) h = h

last_space-trim_right : (s : Bytes) → last_space (trim_right s) ≡ false
last_space-trim_right [] = refl
last_space-trim_right (c ∷ s) = last_space-keep c (trim_right s) (last_space-trim_right s)

-- What is clean stays as it is.
replace_spaces-id : (s : Bytes) → OneLine s → replace_spaces s ≡ s
replace_spaces-id [] h = refl
replace_spaces-id (c ∷ s) ((p, q), h) = rw (p, q, replace_spaces-id s h)

trim_left-id : (s : Bytes) → first_space s ≡ false → trim_left s ≡ s
trim_left-id [] h = refl
trim_left-id (c ∷ s) h = rw h

trim_right-id : (s : Bytes) → last_space s ≡ false → trim_right s ≡ s
trim_right-id [] h = refl
trim_right-id (c ∷ []) h = rw h
trim_right-id (c ∷ d ∷ s) h = rw (trim_right-id (d ∷ s) h)

-- A cleaned statement has no line break, no tab, and no space at either end, and cleaning it again
-- changes nothing.
pub clean_sql-OneLine :
    (sql : Bytes)
    → OneLine (clean_sql sql)
      × (first_space (clean_sql sql) ≡ false)
      × (last_space (clean_sql sql) ≡ false)
      × (clean_sql (clean_sql sql) ≡ clean_sql sql)
unfolding clean_sql
clean_sql-OneLine sql =
    let left = trim_left (replace_spaces sql) in
    let line = trim_right-OneLine left (trim_left-OneLine _ (replace_spaces-OneLine sql)) in
    let first = first_space-trim_right left (first_space-trim_left (replace_spaces sql)) in
    let last = last_space-trim_right left in
    (
      line,
      first,
      last,
      rw (
        replace_spaces-id (trim_right left) line,
        trim_left-id (trim_right left) first,
        trim_right-id (trim_right left) last,
      ),
    )
