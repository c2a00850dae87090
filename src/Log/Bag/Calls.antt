-- ===== src/Log/Bag/Calls.antt =====
-- Sequences of calls on a bag.
use go_backend_examples.Common.{
  ◌≡◌, refl, ap, ◌∙◌, sym, Bool, true, false, if◌then◌else◌, Bool-cases, inl, inr, Option, none,
  some, List, [], ◌∷◌, All, ℤ, Bytes, eq_bytes, eq_bytes_iff, lookup, lookup-insert, NodupKeys,
  insert-NodupKeys, add_int64, add_int64_assoc, add_int64_comm,
}
use go_backend_examples.Log.Value.{
  Value, int64, duration, slice, records, Attrs, add_value, add_record,
}
use go_backend_examples.Log.Bag.{
  Bag, set, add, add_duration, append, append_group, as_int64, as_duration, as_slice, as_records,
}

-- A call with its key.
pub data Call : Type 0 where
  call_set call_append : Bytes → Value → Call
  call_add call_add_duration : Bytes → ℤ → Call
  call_append_group : Bytes → Attrs → Call

abbrev pub key_of : Call → Bytes
key_of (call_set k v) = k
key_of (call_append k v) = k
key_of (call_add k n) = k
key_of (call_add_duration k d) = k
key_of (call_append_group k xs) = k

abbrev pub call : Call → Option Bag → Option Bag
call (call_set k v) = set k v
call (call_append k v) = append k v
call (call_add k n) = add k n
call (call_add_duration k d) = add_duration k d
call (call_append_group k xs) = append_group k xs

abbrev pub run : List Call → Option Bag → Option Bag
run [] bag = bag
run (c ∷ cs) bag = run cs (call c bag)

-- The field of a key, in the bag that a context carries.
abbrev pub read : Bytes → Option Bag → Option Value
read k none = none
read k (some bag) = lookup k bag

-- What a call leaves under its key.
abbrev pub written : Call → Option Value → Value
written (call_set k v) old = v
written (call_append k v) old = slice (add_value (as_slice old) v)
written (call_add k n) old = int64 (add_int64 (as_int64 old) n)
written (call_add_duration k d) old = duration (add_int64 (as_duration old) d)
written (call_append_group k xs) old = records (add_record (as_records old) xs)

abbrev pub IsMap : Option Bag → Type 0
IsMap none = Unit
IsMap (some bag) = NodupKeys bag

-- Every call writes the field of its key, from what was there, and leaves all others; no key comes to
-- stand twice.
pub read-call :
    (c : Call) (k : Bytes) (bag : Bag)
    → NodupKeys bag
    → (read k (call c (some bag)) ≡ (
        if eq_bytes (key_of c) k then some (written c (lookup (key_of c) bag)) else lookup k bag))
      × IsMap (call c (some bag))
unfolding set append add add_duration append_group
read-call (call_set j v) k bag h = (lookup-insert k j _ bag, insert-NodupKeys j _ bag h)
read-call (call_append j v) k bag h = (lookup-insert k j _ bag, insert-NodupKeys j _ bag h)
read-call (call_add j n) k bag h = (lookup-insert k j _ bag, insert-NodupKeys j _ bag h)
read-call (call_add_duration j d) k bag h = (lookup-insert k j _ bag, insert-NodupKeys j _ bag h)
read-call (call_append_group j xs) k bag h = (lookup-insert k j _ bag, insert-NodupKeys j _ bag h)

-- A context without a bag drops every call.
call-none : (c : Call) → call c none ≡ none
unfolding set append add add_duration append_group
call-none (call_set j v) = refl
call-none (call_append j v) = refl
call-none (call_add j n) = refl
call-none (call_add_duration j d) = refl
call-none (call_append_group j xs) = refl

-- Not a call that writes the key `k`, unless it is Add.
abbrev pub IsAdd : Bytes → Call → Type 0
IsAdd k (call_add j n) = Unit
IsAdd k (call_set j v) = eq_bytes j k ≡ false
IsAdd k (call_append j v) = eq_bytes j k ≡ false
IsAdd k (call_add_duration j d) = eq_bytes j k ≡ false
IsAdd k (call_append_group j xs) = eq_bytes j k ≡ false

-- The deltas for `k` added to a number, one after the other.
abbrev pub step : Bytes → ℤ → Call → ℤ
step k x (call_add j n) = if eq_bytes j k then add_int64 x n else x
step k x _ = x

abbrev pub sum_from : Bytes → ℤ → List Call → ℤ
sum_from k x [] = x
sum_from k x (c ∷ cs) = sum_from k (step k x c) cs

add_swap : (x m n : ℤ) → add_int64 (add_int64 x m) n ≡ add_int64 (add_int64 x n) m
add_swap x m n =
    add_int64_assoc x m n ∙ ap (add_int64 x) (add_int64_comm m n) ∙ sym (add_int64_assoc x n m)

step_swap : (k : Bytes) (x : ℤ) (c d : Call) → step k (step k x c) d ≡ step k (step k x d) c
step_swap k x (call_add i m) (call_add j n) = elim (Bool-cases (eq_bytes i k)) [
  | inl e ↦ elim (Bool-cases (eq_bytes j k)) [
    | inl f ↦ rw (e, f) (add_swap x m n)
    | inr f ↦ rw (e, f)
  ]
  | inr e ↦ elim (Bool-cases (eq_bytes j k)) [ inl f ↦ rw (e, f) | inr f ↦ rw (e, f) ]
]
step_swap k x (call_add i m) (call_set j v) = refl
step_swap k x (call_add i m) (call_append j v) = refl
step_swap k x (call_add i m) (call_add_duration j v) = refl
step_swap k x (call_add i m) (call_append_group j v) = refl
step_swap k x (call_set i m) d = refl
step_swap k x (call_append i m) d = refl
step_swap k x (call_add_duration i m) d = refl
step_swap k x (call_append_group i m) d = refl

pub sum_from-step :
    (k : Bytes) (x : ℤ) (c : Call) (cs : List Call)
    → sum_from k (step k x c) cs ≡ step k (sum_from k x cs) c
sum_from-step k x c [] = refl
sum_from-step k x c (d ∷ cs) =
    ap (λ y. sum_from k y cs) (step_swap k x c d) ∙ sum_from-step k (step k x d) c cs

written_int64 :
    (b : Bool) (n : ℤ) (o : Option Value)
    → as_int64 (if b then some (int64 n) else o) ≡ (if b then n else as_int64 o)
written_int64 true n o = refl
written_int64 false n o = refl

same_int64 :
    (b : Bool) (v : Value) (o : Option Value)
    → b ≡ false
    → as_int64 (if b then some v else o) ≡ as_int64 o
same_int64 b v o e = rw e

-- An Add counts under its key, and no other call touches the number.
pub as_int64-call :
    (c : Call) (k : Bytes) (bag : Bag)
    → IsAdd k c
    → as_int64 (read k (call c (some bag))) ≡ step k (as_int64 (lookup k bag)) c
unfolding set append add add_duration append_group
as_int64-call (call_set j v) k bag h =
    ap as_int64 (lookup-insert k j _ bag) ∙ same_int64 (eq_bytes j k) v (lookup k bag) h
as_int64-call (call_append j v) k bag h =
    ap as_int64 (lookup-insert k j _ bag) ∙ same_int64 (eq_bytes j k) _ (lookup k bag) h
as_int64-call (call_add_duration j d) k bag h =
    ap as_int64 (lookup-insert k j _ bag) ∙ same_int64 (eq_bytes j k) _ (lookup k bag) h
as_int64-call (call_append_group j xs) k bag h =
    ap as_int64 (lookup-insert k j _ bag) ∙ same_int64 (eq_bytes j k) _ (lookup k bag) h
as_int64-call (call_add j n) k bag h =
    ap as_int64 (lookup-insert k j _ bag)
    ∙ elim (Bool-cases (eq_bytes j k)) [ inl e ↦ rw (e, (eq_bytes_iff j k).0 e) | inr e ↦ rw e ]

pub call-some : (c : Call) (bag : Bag) → (b : Bag) × (call c (some bag) ≡ some b)
unfolding set append add add_duration append_group
call-some (call_set j v) bag = (_, refl)
call-some (call_append j v) bag = (_, refl)
call-some (call_add j n) bag = (_, refl)
call-some (call_add_duration j d) bag = (_, refl)
call-some (call_append_group j xs) bag = (_, refl)

pub as_int64-run :
    (cs : List Call) (k : Bytes) (bag : Bag)
    → All (IsAdd k) cs
    → as_int64 (read k (run cs (some bag))) ≡ sum_from k (as_int64 (lookup k bag)) cs
as_int64-run [] k bag h = refl
as_int64-run (c ∷ cs) k bag (p, h) =
    let (b, e) = call-some c bag in
    rw e (as_int64-run cs k b h)
    ∙ ap (λ x. sum_from k x cs) (ap (λ o. as_int64 (read k o)) (sym e) ∙ as_int64-call c k bag p)

other_key : (b : Bool) (v : Value) (o : Option Value) → b ≡ false → (if b then some v else o) ≡ o
other_key b v o e = rw e

read-call_other :
    (c : Call) (k : Bytes) (bag : Bag)
    → eq_bytes (key_of c) k ≡ false
    → read k (call c (some bag)) ≡ lookup k bag
unfolding set append add add_duration append_group
read-call_other (call_set j v) k bag h =
    lookup-insert k j _ bag ∙ other_key (eq_bytes j k) _ (lookup k bag) h
read-call_other (call_append j v) k bag h =
    lookup-insert k j _ bag ∙ other_key (eq_bytes j k) _ (lookup k bag) h
read-call_other (call_add j v) k bag h =
    lookup-insert k j _ bag ∙ other_key (eq_bytes j k) _ (lookup k bag) h
read-call_other (call_add_duration j v) k bag h =
    lookup-insert k j _ bag ∙ other_key (eq_bytes j k) _ (lookup k bag) h
read-call_other (call_append_group j v) k bag h =
    lookup-insert k j _ bag ∙ other_key (eq_bytes j k) _ (lookup k bag) h

-- Calls for other keys leave a field alone.
pub read-run_other :
    (cs : List Call) (k : Bytes) (bag : Bag)
    → All (λ c. eq_bytes (key_of c) k ≡ false) cs
    → read k (run cs (some bag)) ≡ lookup k bag
read-run_other [] k bag h = refl
read-run_other (c ∷ cs) k bag (p, h) =
    let (b, e) = call-some c bag in
    rw e (read-run_other cs k b h) ∙ ap (read k) (sym e) ∙ read-call_other c k bag p

pub run-some : (cs : List Call) (bag : Bag) → (b : Bag) × (run cs (some bag) ≡ some b)
run-some [] bag = (bag, refl)
run-some (c ∷ cs) bag =
    let (b, e) = call-some c bag in let (b', e') = run-some cs b in (b', rw e e')
