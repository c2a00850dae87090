-- ===== src/Log/Bag/Public.antt =====
-- A bag as a log line shows it: of a struct with a method LogValue, only what that returns.
use mathlib.Core.Option
use go_backend_examples.Common.{
  ℕ, ◌≡◌, refl, ap, ◌∙◌, sym, Bool-cases, inl, inr, Option, none, some, List, [], ◌∷◌, ℤ, pos,
  negsuc, zero, suc, Bytes, eq_bytes, lookup, insert, keys, sort_strings,
}
use go_backend_examples.Log.Value.{Value, int64, duration, records, log_valuer, Attrs, no_attrs}
use go_backend_examples.Log.Bag.{
  Bag, as_int64, as_duration, as_records, set, add, add_duration, append_group, attr_value, field,
  attrs_of, attrs,
}
use go_backend_examples.Log.Multiline.{flatten_attr, flatten_attrs}
use go_backend_examples.Log.Tracer.{
  QueryError, Opts, QueryTrace, count_rows, count_error, canonical_query,
}

-- A value without the fields of a struct that has a method LogValue.
abbrev pub public : Value → Value
public (log_valuer o v) = log_valuer no_attrs v
public v = v

abbrev pub erase : Bag → Bag
erase [] = []
erase ((k, v) ∷ bag) = (k, public v) ∷ erase bag

-- Two bags, if any, that show the same.
abbrev pub SameBag : Option Bag → Option Bag → Type 0
SameBag b c = Option.map erase b ≡ Option.map erase c

-- Attributes that are written alike, behind any groups.
abbrev pub SameLines : Attrs → Attrs → Type 0
SameLines xs ys = (groups : List Bytes) → flatten_attrs groups xs ≡ flatten_attrs groups ys

lookup-erase : (k : Bytes) (bag : Bag) → lookup k (erase bag) ≡ Option.map public (lookup k bag)
unfolding lookup
lookup-erase k [] = refl
lookup-erase k ((j, v) ∷ bag) = elim (Bool-cases (eq_bytes j k)) [
  | inl e ↦ rw e
  | inr e ↦ rw (e, lookup-erase k bag)
]

erase-insert :
    (k : Bytes) (v : Value) (bag : Bag) → erase (insert k v bag) ≡ insert k (public v) (erase bag)
unfolding insert
erase-insert k v [] = refl
erase-insert k v ((j, u) ∷ bag) = elim (Bool-cases (eq_bytes j k)) [
  | inl e ↦ rw e
  | inr e ↦ rw (e, erase-insert k v bag)
]

as_int64-public : (o : Option Value) → as_int64 (Option.map public o) ≡ as_int64 o
as_int64-public none = refl
as_int64-public (some (int64 n)) = refl
as_int64-public (some v) = refl

as_duration-public : (o : Option Value) → as_duration (Option.map public o) ≡ as_duration o
as_duration-public none = refl
as_duration-public (some (duration n)) = refl
as_duration-public (some v) = refl

as_records-public : (o : Option Value) → as_records (Option.map public o) ≡ as_records o
as_records-public none = refl
as_records-public (some (records rs)) = refl
as_records-public (some v) = refl

erase-set :
    (k : Bytes) (v : Value) (b : Option Bag)
    → Option.map erase (set k v b) ≡ set k (public v) (Option.map erase b)
unfolding set
erase-set k v none = refl
erase-set k v (some bag) = ap some (erase-insert k v bag)

erase-add :
    (k : Bytes) (n : ℤ) (b : Option Bag)
    → Option.map erase (add k n b) ≡ add k n (Option.map erase b)
unfolding add
erase-add k n none = refl
erase-add k n (some bag) =
    ap some (rw (lookup-erase k bag, as_int64-public (lookup k bag), erase-insert))

erase-add_duration :
    (k : Bytes) (n : ℤ) (b : Option Bag)
    → Option.map erase (add_duration k n b) ≡ add_duration k n (Option.map erase b)
unfolding add_duration
erase-add_duration k n none = refl
erase-add_duration k n (some bag) =
    ap some (rw (lookup-erase k bag, as_duration-public (lookup k bag), erase-insert))

erase-append_group :
    (k : Bytes) (xs : Attrs) (b : Option Bag)
    → Option.map erase (append_group k xs b) ≡ append_group k xs (Option.map erase b)
unfolding append_group
erase-append_group k xs none = refl
erase-append_group k xs (some bag) =
    ap some (rw (lookup-erase k bag, as_records-public (lookup k bag), erase-insert))

keys-erase : (bag : Bag) → keys (erase bag) ≡ keys bag
keys-erase [] = refl
keys-erase ((k, v) ∷ bag) = ap (λ ks. k ∷ ks) (keys-erase bag)

flatten-public :
    (groups : List Bytes) (k : Bytes) (o : Option Value)
    → flatten_attr groups k (attr_value (field (Option.map public o)))
      ≡ flatten_attr groups k (attr_value (field o))
unfolding flatten_attr attr_value
flatten-public groups k none = refl
flatten-public groups k (some (log_valuer o v)) = refl
flatten-public groups k (some v) = refl

flatten-attrs_of :
    (groups ks : List Bytes) (bag : Bag)
    → flatten_attrs groups (attrs_of ks (erase bag)) ≡ flatten_attrs groups (attrs_of ks bag)
unfolding flatten_attrs attrs_of
flatten-attrs_of groups [] bag = refl
flatten-attrs_of groups (k ∷ ks) bag =
    rw (lookup-erase k bag, flatten-public groups k (lookup k bag), flatten-attrs_of groups ks bag)

attrs-erase : (b : Option Bag) → SameLines (attrs (Option.map erase b)) (attrs b)
unfolding attrs
attrs-erase none groups = refl
attrs-erase (some bag) groups =
    rw (keys-erase bag, flatten-attrs_of groups (sort_strings (keys bag)) bag)

-- Bags that show the same are written alike.
pub attrs-SameBag : (b c : Option Bag) → SameBag b c → SameLines (attrs b) (attrs c)
attrs-SameBag b c h groups =
    sym (attrs-erase b groups) ∙ (ap (λ b. flatten_attrs groups (attrs b)) h ∙ attrs-erase c groups)

pub set-SameBag :
    (k : Bytes) (u v : Value) (b c : Option Bag)
    → public u ≡ public v
    → SameBag b c
    → SameBag (set k u b) (set k v c)
set-SameBag k u v b c e h = rw (erase-set k u b, erase-set k v c, e, h)

add-SameBag : (k : Bytes) (n : ℤ) (b c : Option Bag) → SameBag b c → SameBag (add k n b) (add k n c)
add-SameBag k n b c h = rw (erase-add k n b, erase-add k n c, h)

add_duration-SameBag :
    (k : Bytes) (n : ℤ) (b c : Option Bag)
    → SameBag b c
    → SameBag (add_duration k n b) (add_duration k n c)
add_duration-SameBag k n b c h = rw (erase-add_duration k n b, erase-add_duration k n c, h)

append_group-SameBag :
    (k : Bytes) (xs : Attrs) (b c : Option Bag)
    → SameBag b c
    → SameBag (append_group k xs b) (append_group k xs c)
append_group-SameBag k xs b c h = rw (erase-append_group k xs b, erase-append_group k xs c, h)

count_rows-SameBag :
    (n : ℤ) (b c : Option Bag) → SameBag b c → SameBag (count_rows n b) (count_rows n c)
count_rows-SameBag (pos (suc n)) b c h = add-SameBag _ _ b c h
count_rows-SameBag (pos zero) b c h = h
count_rows-SameBag (negsuc n) b c h = h

count_error-SameBag :
    (e : Option QueryError) (b c : Option Bag)
    → SameBag b c
    → SameBag (count_error e b) (count_error e c)
count_error-SameBag none b c h = h
count_error-SameBag (some e) b c h = add-SameBag _ _ b c h

pub canonical_query-SameBag :
    (opts : Opts) (trace : QueryTrace) (ended : ℕ) (e : Option QueryError) (rows : ℤ)
    (b c : Option Bag)
    → SameBag b c
    → SameBag
        (canonical_query opts trace ended e rows b)
        (canonical_query opts trace ended e rows c)
unfolding canonical_query
canonical_query-SameBag opts trace ended e rows b c h = count_error-SameBag e _ _ (
    count_rows-SameBag rows _ _
      (add_duration-SameBag _ _ _ _ (add-SameBag _ _ _ _ (append_group-SameBag _ _ b c h))))
