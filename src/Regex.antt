-- ===== src/Regex.antt =====
-- The regular expressions that custom_http_handler writes: a text that is matched as a whole, by classes
-- of characters with their numbers of repetitions, one behind the other.
use go_backend_examples.Common.{
  ℕ, suc, ◌+◌, ◌≡◌, refl, ap, if◌then◌else◌, ◌==◌, Bool, true, false, ◌||◌, ◌&&◌, leb, Option, none,
  some, List, [], ◌∷◌, ◌++◌, Bytes, codes, length, All, arith, inl, inr, ◌⊎◌, sym, subst,
}
use go_backend_examples.Strconv.{itoa}

-- The ranges of a class, and how often it is repeated: at least `least` times, and at most `most`.
pub record Item : Type 0 where
  pub ranges : List (ℕ × ℕ)
  pub least : ℕ
  pub most : Option ℕ

abbrev pub Pattern : Type 0
Pattern = List Item

abbrev pub in_ranges : List (ℕ × ℕ) → ℕ → Bool
in_ranges [] c = false
in_ranges ((a, b) ∷ rs) c = leb a c && leb c b || in_ranges rs c

abbrev pub below : Option ℕ → ℕ → Bool
below none n = true
below (some m) n = leb n m

-- A number of repetitions.
abbrev pub fits : Item → ℕ → Bool
fits p n = leb p.least n && below p.most n

-- How a pattern is written.
abbrev escaped : ℕ → Bytes → Bytes
escaped c rest = if c == b'-' || c == b'.' then b'\\' ∷ c ∷ rest else c ∷ rest

abbrev in_class : ℕ → Bytes → Bytes
in_class c rest = if c == b'-' then b'\\' ∷ c ∷ rest else c ∷ rest

abbrev written_ranges : List (ℕ × ℕ) → Bytes → Bytes
written_ranges [] rest = rest
written_ranges ((a, b) ∷ rs) rest =
    let more = written_ranges rs rest in if a == b then in_class a more else a ∷ b'-' ∷ b ∷ more

abbrev written_class : List (ℕ × ℕ) → Bytes → Bytes
written_class ((a, b) ∷ []) rest =
    if a == b then escaped a rest else b'[' ∷ a ∷ b'-' ∷ b ∷ b']' ∷ rest
written_class rs rest = b'[' ∷ written_ranges rs (b']' ∷ rest)

abbrev written_count : ℕ → Option ℕ → Bytes → Bytes
written_count n none rest = b'+' ∷ rest
written_count n (some m) rest =
    if m == 1 then rest else b'{' ∷ (itoa n ++ (b',' ∷ (itoa m ++ (b'}' ∷ rest))))

abbrev written_items : Pattern → Bytes
written_items [] = codes "$"
written_items (p ∷ ps) = written_class p.ranges (written_count p.least p.most (written_items ps))

abbrev pub written : Pattern → Bytes
written ps = b'^' ∷ written_items ps

-- What a pattern matches.
pub data Matches : Pattern → Bytes → Type 0 where
  ends : Matches [] []
  next :
      {p : Item} {ps : Pattern} (s : Bytes) {t : Bytes}
      → All (λ c. in_ranges p.ranges c ≡ true) s
      → fits p (length s) ≡ true
      → Matches ps t
      → Matches (p ∷ ps) (s ++ t)

abbrev is_end : Bytes → Bool
is_end [] = true
is_end (c ∷ s) = false

module _ (m : Bytes → Bool) (p : Item) where
  -- Some more characters of the class, `n` of which have been read, and then what `m` takes.
  unfoldable pub repeated : ℕ → Bytes → Bool
  repeated n [] = fits p n && m []
  repeated n (c ∷ s) =
      let more = repeated (suc n) s in fits p n && m (c ∷ s) || in_ranges p.ranges c && more

unfoldable pub matches : Pattern → Bytes → Bool
unfolding repeated
matches [] s = is_end s
matches (p ∷ ps) s = repeated (matches ps) p 0 s

both : (a b : Bool) → (a && b) ≡ true → (a ≡ true) × (b ≡ true)
both true true h = (refl, refl)
both true false h = cc h
both false b h = cc h

either : (a b : Bool) → (a || b) ≡ true → (a ≡ true) ⊎ (b ≡ true)
either true b h = inl refl
either false b h = inr h

and_true : (a b : Bool) → a ≡ true → b ≡ true → (a && b) ≡ true
and_true a b h k = rw (h, k)

or_left : (a b : Bool) → a ≡ true → (a || b) ≡ true
or_left a b h = rw h

or_right : (a b : Bool) → b ≡ true → (a || b) ≡ true
or_right true b h = refl
or_right false b h = h

module _ (p : Item) where
  fits_at : {n k : ℕ} → n ≡ k → fits p n ≡ true → fits p k ≡ true
  fits_at e h = subst (λ j. fits p j ≡ true) e h

module _ (m : Bytes → Bool) (p : Item) where
  -- The parts of a text that is taken.
  abbrev Parts : ℕ → Bytes → Type 0
  Parts n s =
      (u : Bytes) × (t : Bytes) × (s ≡ u ++ t)
      × All (λ c. in_ranges p.ranges c ≡ true) u
      × (fits p (n + length u) ≡ true)
      × (m t ≡ true)

  repeated-Parts : (n : ℕ) (s : Bytes) → repeated m p n s ≡ true → Parts n s
  unfolding repeated
  repeated-Parts n [] h =
      let (f, e) = both (fits p n) (m []) h in ([], [], refl, tt, fits_at p (omega arith) f, e)
  repeated-Parts n (c ∷ s) h =
      elim (either (fits p n && m (c ∷ s)) (in_ranges p.ranges c && repeated m p (suc n) s) h) [
        | inl e ↦
            let (f, g) = both (fits p n) (m (c ∷ s)) e in
            ([], c ∷ s, refl, tt, fits_at p (omega arith) f, g)
        | inr e ↦
            let (inside, more) = both (in_ranges p.ranges c) (repeated m p (suc n) s) e in
            let (u, t, parts, all, f, g) = repeated-Parts (suc n) s more in
            (c ∷ u, t, ap (λ r. c ∷ r) parts, (inside, all), fits_at p (omega arith) f, g)
      ]

  Parts-repeated :
      (n : ℕ) (u t : Bytes)
      → All (λ c. in_ranges p.ranges c ≡ true) u
      → fits p (n + length u) ≡ true
      → m t ≡ true
      → repeated m p n (u ++ t) ≡ true
  unfolding repeated
  Parts-repeated n [] [] all f g = and_true _ _ (fits_at p (omega arith) f) g
  Parts-repeated n [] (c ∷ t) all f g = or_left _ _ (and_true _ _ (fits_at p (omega arith) f) g)
  Parts-repeated n (c ∷ u) t (inside, all) f g =
      or_right (fits p n && m (c ∷ (u ++ t))) _
        (and_true _ _ inside (Parts-repeated (suc n) u t all (fits_at p (omega arith) f) g))

-- The matcher decides what the pattern matches.
pub matches-Matches : (ps : Pattern) (s : Bytes) → matches ps s ≡ true → Matches ps s
unfolding matches
matches-Matches [] [] h = ends
matches-Matches [] (c ∷ s) h = cc h
matches-Matches (p ∷ ps) s h =
    let (u, t, parts, all, f, g) = repeated-Parts (matches ps) p 0 s h in
    subst (Matches (p ∷ ps)) (sym parts)
      (next u all (fits_at p (omega arith) f) (matches-Matches ps t g))

pub Matches-matches : (ps : Pattern) (s : Bytes) → Matches ps s → matches ps s ≡ true
unfolding matches
Matches-matches [] _ ends = refl
Matches-matches (p ∷ ps) _ (next s {t} all f h) =
    Parts-repeated (matches ps) p 0 s t all (fits_at p (omega arith) f) (Matches-matches ps t h)
