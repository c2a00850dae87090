-- ===== src/Resp3/Embed/Serialize.antt =====
-- The two serializers agree.
use go_backend_examples.Common.{
  ◌≡◌, refl, some, none, Option, Bytes, append_assoc, true, false, inl, inr, ◌⊎◌, append-nil,
  Bool-cases, Bool, if◌then◌else◌, [],
}
use go_backend_examples.Resp3.Double.{FloatText}
use go_backend_examples.Resp3.Sealed.{
  RespType, Items, Pairs, nil, simple_string, error_reply, integer, big_number, double, boolean,
  null, bulk_string, blob_error, verbatim_string, array, set, push, map, attribute, no_items, item,
  no_pairs, pair, len_items, len_pairs, Limits, is_nil, ◌then_write◌,
}
use go_backend_examples.Resp3.Sealed
use go_backend_examples.Resp3.Tagged
use go_backend_examples.Resp3.Embed.{embed, embed_items, embed_pairs}

-- No element is a nil interface; the value of an attribute may be.
unfoldable mutual
  pub HasNoNil : RespType → Type 0
  HasNoNil nil = ⊥
  HasNoNil (array xs) = ItemsNoNil xs
  HasNoNil (set xs) = ItemsNoNil xs
  HasNoNil (push xs) = ItemsNoNil xs
  HasNoNil (map kvs) = PairsNoNil kvs
  HasNoNil (attribute kvs v) = PairsNoNil kvs × ((v ≡ nil) ⊎ HasNoNil v)
  HasNoNil _ = Unit

  pub ItemsNoNil : Items → Type 0
  ItemsNoNil no_items = Unit
  ItemsNoNil (item v xs) = HasNoNil v × ItemsNoNil xs

  pub PairsNoNil : Pairs → Type 0
  PairsNoNil no_pairs = Unit
  PairsNoNil (pair k v kvs) = HasNoNil k × HasNoNil v × PairsNoNil kvs

pub len_items-embed : (xs : Items) → Tagged.len_items (embed_items xs) ≡ len_items xs
unfolding embed_items
len_items-embed no_items = refl
len_items-embed (item v xs) = rw (len_items-embed xs)

pub len_pairs-embed : (kvs : Pairs) → Tagged.len_pairs (embed_pairs kvs) ≡ len_pairs kvs
unfolding embed_pairs
len_pairs-embed no_pairs = refl
len_pairs-embed (pair k v kvs) = rw (len_pairs-embed kvs)

pub is_nil-false : (v : RespType) → HasNoNil v → is_nil v ≡ false
unfolding HasNoNil
is_nil-false nil h = absurd h
is_nil-false _ h = refl

module _ (ft : FloatText) where
  mutual
    unfolding Sealed.serialize Tagged.serialize embed HasNoNil

    pub serialize-embed :
        (t : RespType) → HasNoNil t → Sealed.serialize ft t ≡ some (Tagged.serialize ft (embed t))
    serialize-embed nil h = absurd h
    serialize-embed (array xs) h = rw (serialize_items-embed xs h, len_items-embed xs)
    serialize-embed (set xs) h = rw (serialize_items-embed xs h, len_items-embed xs)
    serialize-embed (push xs) h = rw (serialize_items-embed xs h, len_items-embed xs)
    serialize-embed (map kvs) h = rw (serialize_pairs-embed kvs h, len_pairs-embed kvs)
    serialize-embed (attribute kvs v) h = rw (serialize_pairs-embed kvs h.0) (elim (h.1) [
      | inl e ↦ rw e (simp (len_pairs-embed, append-nil))
      | inr k ↦ rw (is_nil-false v k, serialize-embed v k) (simp (len_pairs-embed, append_assoc))
    ])
    serialize-embed (boolean true) h = refl
    serialize-embed (boolean false) h = refl
    serialize-embed _ h = refl

    pub serialize_items-embed :
        (xs : Items)
        → ItemsNoNil xs
        → Sealed.serialize_items ft xs ≡ some (Tagged.serialize_items ft (embed_items xs))
    serialize_items-embed no_items h = refl
    serialize_items-embed (item v xs) h = rw (serialize-embed v h.0, serialize_items-embed xs h.1)

    pub serialize_pairs-embed :
        (kvs : Pairs)
        → PairsNoNil kvs
        → Sealed.serialize_pairs ft kvs ≡ some (Tagged.serialize_pairs ft (embed_pairs kvs))
    serialize_pairs-embed no_pairs h = refl
    serialize_pairs-embed (pair k v kvs) h =
        rw (serialize-embed k h.0, serialize-embed v h.1, serialize_pairs-embed kvs h.2)
          (simp append_assoc)

then_write-inv :
    (a b : Option Bytes) {s : Bytes}
    → (a then_write b) ≡ some s
    → ((x : Bytes) × (a ≡ some x)) × ((y : Bytes) × (b ≡ some y))
then_write-inv none b h = cc
then_write-inv (some x) none h = cc
then_write-inv (some x) (some y) h = ((x, refl), (y, refl))

second_of :
    (b : Bool) (r : Option Bytes) {o : Option Bytes}
    → b ≡ false
    → (if b then some [] else r) ≡ o
    → r ≡ o
second_of true r e h = cc
second_of false r e h = h

pub is_nil-true : (v : RespType) → is_nil v ≡ true → v ≡ nil
is_nil-true nil h = refl
is_nil-true _ h = cc

module _ (ft : FloatText) where
  mutual
    unfolding Sealed.serialize HasNoNil

    pub serialize_no_nil : (t : RespType) (s : Bytes) → Sealed.serialize ft t ≡ some s → HasNoNil t
    serialize_no_nil nil s h = cc
    serialize_no_nil (array xs) s h =
        let (y, e) = (then_write-inv (some (Sealed.header 42 (len_items xs))) _ h).1 in
        serialize_items_no_nil xs y e
    serialize_no_nil (set xs) s h =
        let (y, e) = (then_write-inv (some (Sealed.header 126 (len_items xs))) _ h).1 in
        serialize_items_no_nil xs y e
    serialize_no_nil (push xs) s h =
        let (y, e) = (then_write-inv (some (Sealed.header 62 (len_items xs))) _ h).1 in
        serialize_items_no_nil xs y e
    serialize_no_nil (map kvs) s h =
        let (y, e) = (then_write-inv (some (Sealed.header 37 (len_pairs kvs))) _ h).1 in
        serialize_pairs_no_nil kvs y e
    serialize_no_nil (attribute kvs v) s h =
        let parts = then_write-inv _ _ h in
        let (x, front) = parts.0 in
        let (y, pairs) = (then_write-inv (some (Sealed.header 124 (len_pairs kvs))) _ front).1 in
        let (z, last) = parts.1 in
        (
          serialize_pairs_no_nil kvs y pairs,
          elim (Bool-cases (is_nil v)) [
            | inl e ↦ inl (is_nil-true v e)
            | inr e ↦ inr (serialize_no_nil v z (second_of (is_nil v) _ e last))
          ],
        )
    serialize_no_nil _ s h = tt

    pub serialize_items_no_nil :
        (xs : Items) (s : Bytes) → Sealed.serialize_items ft xs ≡ some s → ItemsNoNil xs
    serialize_items_no_nil no_items s h = tt
    serialize_items_no_nil (item v xs) s h =
        let ((x, e), (y, e')) = then_write-inv _ _ h in
        (serialize_no_nil v x e, serialize_items_no_nil xs y e')

    pub serialize_pairs_no_nil :
        (kvs : Pairs) (s : Bytes) → Sealed.serialize_pairs ft kvs ≡ some s → PairsNoNil kvs
    serialize_pairs_no_nil no_pairs s h = tt
    serialize_pairs_no_nil (pair k v kvs) s h =
        let parts = then_write-inv _ _ h in
        let (x, front) = parts.0 in
        let (z, rest) = parts.1 in
        let ((a, e), (b, e')) = then_write-inv _ _ front in
        (serialize_no_nil k a e, serialize_no_nil v b e', serialize_pairs_no_nil kvs z rest)
