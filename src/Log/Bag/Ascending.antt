-- ===== src/Log/Bag/Ascending.antt =====
-- That the attributes of a bag are in ascending order, and do not depend on the order of the map.
use mathlib.Core.Option
use go_backend_examples.Common.{
  ◌≡◌, refl, ap, ◌∙◌, sym, subst, Bool, true, false, ◌||◌, if◌then◌else◌, Bool-cases, inl, inr, ◌⊎◌,
  Option, none, some, List, [], ◌∷◌, Bytes, All, eq_bytes, eq_bytes_iff, eq_bytes_self, lookup,
  keys, NodupKeys, lt_bytes, lt_bytes_irrefl, lt_bytes_trans, lt_bytes_total, insert_sorted,
  sort_strings, arith,
}
use go_backend_examples.Log.Value.{Value, Attrs, no_attrs, attr}
use go_backend_examples.Log.Bag.{Bag, field, attr_value, attrs_of, attrs}

abbrev pub mem : Bytes → List Bytes → Bool
mem k [] = false
mem k (j ∷ js) = eq_bytes j k || mem k js

abbrev pub Ascending : List Bytes → Type 0
Ascending [] = Unit
Ascending (k ∷ ks) = All (λ j. lt_bytes k j ≡ true) ks × Ascending ks

-- A sum of tests is symmetric in its first two.
or_swap : (a b c : Bool) → (a || (b || c)) ≡ (b || (a || c))
or_swap true true c = refl
or_swap true false c = refl
or_swap false true c = refl
or_swap false false c = refl

mem-insert_sorted :
    (i k : Bytes) (ks : List Bytes) → mem i (insert_sorted k ks) ≡ (eq_bytes k i || mem i ks)
mem-insert_sorted i k [] = refl
mem-insert_sorted i k (j ∷ js) = elim (Bool-cases (lt_bytes j k)) [
  | inl p ↦ rw (p, mem-insert_sorted i k js) (or_swap (eq_bytes j i) (eq_bytes k i) (mem i js))
  | inr p ↦ rw p
]

mem-sort_strings : (i : Bytes) (ks : List Bytes) → mem i (sort_strings ks) ≡ mem i ks
unfolding sort_strings
mem-sort_strings i [] = refl
mem-sort_strings i (k ∷ ks) =
    mem-insert_sorted i k (sort_strings ks) ∙ ap (λ b. eq_bytes k i || b) (mem-sort_strings i ks)

-- An element of a list all of whose elements are above `k` is above `k`.
mem-All :
    (k i : Bytes) (ks : List Bytes)
    → All (λ j. lt_bytes k j ≡ true) ks
    → mem i ks ≡ true
    → lt_bytes k i ≡ true
mem-All k i [] h m = cc
mem-All k i (j ∷ js) (p, h) m = elim (Bool-cases (eq_bytes j i)) [
  | inl e ↦ subst (λ x. lt_bytes k x ≡ true) ((eq_bytes_iff j i).0 e) p
  | inr e ↦ mem-All k i js h (rw e at m)
]

All-mem :
    (k : Bytes) (ks : List Bytes)
    → ((i : Bytes) → mem i ks ≡ true → lt_bytes k i ≡ true)
    → All (λ j. lt_bytes k j ≡ true) ks
All-mem k [] h = tt
All-mem k (j ∷ js) h = (h j (rw (eq_bytes_self j)), All-mem k js (λ i m. h i (ground (arith, m))))

All-insert_sorted :
    (k i : Bytes) (ks : List Bytes)
    → lt_bytes k i ≡ true
    → All (λ j. lt_bytes k j ≡ true) ks
    → All (λ j. lt_bytes k j ≡ true) (insert_sorted i ks)
All-insert_sorted k i [] p h = (p, tt)
All-insert_sorted k i (j ∷ js) p (q, h) = elim (Bool-cases (lt_bytes j i)) [
  | inl e ↦ rw e (q, All-insert_sorted k i js p h)
  | inr e ↦ rw e (p, (q, h))
]

All-lt_trans :
    (k j : Bytes) (js : List Bytes)
    → lt_bytes k j ≡ true
    → All (λ i. lt_bytes j i ≡ true) js
    → All (λ i. lt_bytes k i ≡ true) js
All-lt_trans k j [] p h = tt
All-lt_trans k j (i ∷ js) p (q, h) = (lt_bytes_trans k j i p q, All-lt_trans k j js p h)

insert_sorted-Ascending :
    (k : Bytes) (ks : List Bytes) → mem k ks ≡ false → Ascending ks → Ascending (insert_sorted k ks)
insert_sorted-Ascending k [] m h = (tt, tt)
insert_sorted-Ascending k (j ∷ js) m (above, h) = elim (Bool-cases (lt_bytes j k)) [
  | inl p ↦
      rw p (All-insert_sorted j k js p above, insert_sorted-Ascending k js (ground (arith, m)) h)
  | inr p ↦ elim (Bool-cases (lt_bytes k j)) [
    | inl q ↦ rw p ((q, All-lt_trans k j js q above), (above, h))
    | inr q ↦
        let found : mem k (j ∷ js) ≡ true =
          subst (λ x. mem k (x ∷ js) ≡ true) (lt_bytes_total k j q p) (rw (eq_bytes_self k)) in
        cc (found, m)
  ]
]

abbrev pub NodupStrings : List Bytes → Type 0
NodupStrings [] = Unit
NodupStrings (k ∷ ks) = (mem k ks ≡ false) × NodupStrings ks

pub sort_strings-Ascending : (ks : List Bytes) → NodupStrings ks → Ascending (sort_strings ks)
unfolding sort_strings
sort_strings-Ascending [] h = tt
sort_strings-Ascending (k ∷ ks) (fresh, h) =
    insert_sorted-Ascending k (sort_strings ks) (mem-sort_strings k ks ∙ fresh)
      (sort_strings-Ascending ks h)

-- The least elements of two ascending lists with the same elements agree.
not_mem_below : (k : Bytes) (ks : List Bytes) → All (λ j. lt_bytes k j ≡ true) ks → mem k ks ≡ false
not_mem_below k ks h = elim (Bool-cases (mem k ks)) [
  | inl m ↦ cc (lt_bytes_irrefl k, mem-All k k ks h m)
  | inr m ↦ m
]

head_le :
    (j k : Bytes) (js ks : List Bytes)
    → All (λ i. lt_bytes k i ≡ true) ks
    → ((i : Bytes) → mem i (j ∷ js) ≡ mem i (k ∷ ks))
    → (j ≡ k) ⊎ (lt_bytes k j ≡ true)
head_le j k js ks above same =
    let found : mem j (k ∷ ks) ≡ true = sym (same j) ∙ rw (eq_bytes_self j) in
    elim (Bool-cases (eq_bytes k j)) [
      | inl e ↦ inl (sym ((eq_bytes_iff k j).0 e))
      | inr e ↦ inr (mem-All k j ks above (rw e at found))
    ]

same_head :
    (j k : Bytes) (js ks : List Bytes)
    → Ascending (j ∷ js)
    → Ascending (k ∷ ks)
    → ((i : Bytes) → mem i (j ∷ js) ≡ mem i (k ∷ ks))
    → j ≡ k
same_head j k js ks (above_j, hj) (above_k, hk) same = elim (head_le j k js ks above_k same) [
  | inl e ↦ e
  | inr p ↦ elim (head_le k j ks js above_j (λ i. sym (same i))) [
    | inl e ↦ sym e
    | inr q ↦ cc (lt_bytes_irrefl k, lt_bytes_trans k j k p q)
  ]
]

same_tail :
    (k : Bytes) (js ks : List Bytes)
    → mem k js ≡ false
    → mem k ks ≡ false
    → ((i : Bytes) → mem i (k ∷ js) ≡ mem i (k ∷ ks))
    → (i : Bytes) → mem i js ≡ mem i ks
same_tail k js ks p q same i = elim (Bool-cases (eq_bytes k i)) [
  | inl e ↦ subst (λ x. mem x js ≡ mem x ks) ((eq_bytes_iff k i).0 e) (p ∙ sym q)
  | inr e ↦ let at_i = same i in rw e at at_i
]

-- Two ascending lists with the same elements are equal.
Ascending-ext :
    (js ks : List Bytes)
    → Ascending js
    → Ascending ks
    → ((i : Bytes) → mem i js ≡ mem i ks)
    → js ≡ ks
Ascending-ext [] [] hj hk same = refl
Ascending-ext [] (k ∷ ks) hj hk same = cc (same k, eq_bytes_self k)
Ascending-ext (j ∷ js) [] hj hk same = cc (same j, eq_bytes_self j)
Ascending-ext (j ∷ js) (k ∷ ks) hj hk same =
    let e = same_head j k js ks hj hk same in
    let tails =
      same_tail k js ks (subst (λ x. mem x js ≡ false) e (not_mem_below j js hj.0))
        (not_mem_below k ks hk.0)
        (subst (λ x. (i : Bytes) → mem i (x ∷ js) ≡ mem i (k ∷ ks)) e same) in
    cc (e, Ascending-ext js ks hj.1 hk.1 tails)

abbrev pub is_some {ℓ} : {A : Type ℓ} → Option A → Bool
is_some none = false
is_some (some a) = true

mem-keys : (k : Bytes) (bag : Bag) → mem k (keys bag) ≡ is_some (lookup k bag)
unfolding lookup
mem-keys k [] = refl
mem-keys k ((j, v) ∷ bag) = elim (Bool-cases (eq_bytes j k)) [
  | inl e ↦ rw e
  | inr e ↦ rw (e, mem-keys k bag)
]

NodupKeys-NodupStrings : (bag : Bag) → NodupKeys bag → NodupStrings (keys bag)
NodupKeys-NodupStrings [] h = tt
NodupKeys-NodupStrings ((k, v) ∷ bag) (fresh, h) =
    (mem-keys k bag ∙ ap is_some fresh, NodupKeys-NodupStrings bag h)

attrs_of-same :
    (ks : List Bytes) (b c : Bag)
    → ((k : Bytes) → lookup k b ≡ lookup k c)
    → attrs_of ks b ≡ attrs_of ks c
unfolding attrs_of
attrs_of-same [] b c same = refl
attrs_of-same (k ∷ ks) b c same = rw (same k, attrs_of-same ks b c same)

-- The attributes do not depend on the order in which the map is read: two maps without a repeated key
-- that hold the same values under the same keys have the same attributes.
pub attrs-same :
    (b c : Bag)
    → NodupKeys b
    → NodupKeys c
    → ((k : Bytes) → lookup k b ≡ lookup k c)
    → attrs (some b) ≡ attrs (some c)
unfolding attrs
attrs-same b c hb hc same =
    let one_order =
      Ascending-ext (sort_strings (keys b)) (sort_strings (keys c))
        (sort_strings-Ascending (keys b) (NodupKeys-NodupStrings b hb))
        (sort_strings-Ascending (keys c) (NodupKeys-NodupStrings c hc))
        (λ k.
          mem-sort_strings k (keys b)
          ∙ mem-keys k b
          ∙ ap is_some (same k)
          ∙ sym (mem-sort_strings k (keys c) ∙ mem-keys k c)) in
    rw one_order (attrs_of-same (sort_strings (keys c)) b c same)

abbrev pub attr_keys : Attrs → List Bytes
attr_keys no_attrs = []
attr_keys (attr k v xs) = k ∷ attr_keys xs

abbrev pub get_attr : Bytes → Attrs → Option Value
get_attr k no_attrs = none
get_attr k (attr j v xs) = if eq_bytes j k then some v else get_attr k xs

attr_keys-attrs_of : (ks : List Bytes) (bag : Bag) → attr_keys (attrs_of ks bag) ≡ ks
unfolding attrs_of
attr_keys-attrs_of [] bag = refl
attr_keys-attrs_of (k ∷ ks) bag = ap (λ l. k ∷ l) (attr_keys-attrs_of ks bag)

get_attr-attrs_of :
    (k : Bytes) (ks : List Bytes) (bag : Bag)
    → get_attr k (attrs_of ks bag)
      ≡ (if mem k ks then some (attr_value (field (lookup k bag))) else none)
unfolding attrs_of
get_attr-attrs_of k [] bag = refl
get_attr-attrs_of k (j ∷ ks) bag = elim (Bool-cases (eq_bytes j k)) [
  | inl e ↦ rw e (ap (λ x. some (attr_value (field (lookup x bag)))) ((eq_bytes_iff j k).0 e))
  | inr e ↦ rw e (get_attr-attrs_of k ks bag)
]

field_of_found :
    (o : Option Value)
    → (if is_some o then some (attr_value (field o)) else none) ≡ Option.map attr_value o
field_of_found none = refl
field_of_found (some v) = refl

-- The attributes of a bag have its keys in strictly ascending order, each once, and under every key the
-- attribute of its field, or none if there is no such field.
pub attrs-Ascending :
    (bag : Bag) (k : Bytes)
    → NodupKeys bag
    → Ascending (attr_keys (attrs (some bag)))
      × (get_attr k (attrs (some bag)) ≡ Option.map attr_value (lookup k bag))
unfolding attrs
attrs-Ascending bag k h = (
  rw (attr_keys-attrs_of (sort_strings (keys bag)) bag)
      (sort_strings-Ascending (keys bag) (NodupKeys-NodupStrings bag h)),
  get_attr-attrs_of k (sort_strings (keys bag)) bag
      ∙ ap (λ b. if b then some (attr_value (field (lookup k bag))) else none)
          (mem-sort_strings k (keys bag) ∙ mem-keys k bag)
      ∙ field_of_found (lookup k bag),
)
