-- ===== src/Common/Dict.antt =====
-- Maps with byte strings as keys: association lists, in an order that no statement relies on.
use mathlib.Core.Path.{◌≡◌, refl}
use mathlib.Core.Logic.{◌↔◌}
use mathlib.Core.Bool.{true}
use mathlib.Core.Option.{Option, none, some}
use mathlib.Core.List.{List, [], ◌∷◌}
use native.Mathlib.Omega.{arith}
use go_backend_examples.Common.Tests.{if◌then◌else◌}
use go_backend_examples.Common.Lists.{Bytes, eq_bytes, eq_bytes→eq}

pub eq_bytes_self : (s : Bytes) → eq_bytes s s ≡ true
unfolding eq_bytes
eq_bytes_self [] = refl
eq_bytes_self (a ∷ s) = ground (arith, eq_bytes_self s)

pub eq_bytes_iff : (s t : Bytes) → (eq_bytes s t ≡ true) ↔ (s ≡ t)
eq_bytes_iff s t = (eq_bytes→eq s t, λ e. rw e (eq_bytes_self t))

module _ {ℓ} {V : Type ℓ} where
  abbrev pub keys : List (Bytes × V) → List Bytes
  keys [] = []
  keys ((k, v) ∷ m) = k ∷ keys m

  unfoldable pub lookup : Bytes → List (Bytes × V) → Option V
  lookup k [] = none
  lookup k ((j, v) ∷ m) = if eq_bytes j k then some v else lookup k m

  -- m[k] = v
  unfoldable pub insert : Bytes → V → List (Bytes × V) → List (Bytes × V)
  insert k v [] = (k, v) ∷ []
  insert k v ((j, w) ∷ m) = if eq_bytes j k then (k, v) ∷ m else (j, w) ∷ insert k v m

  -- No key twice, as in a Go map.
  abbrev pub NodupKeys : List (Bytes × V) → Type ℓ
  NodupKeys [] = Unit
  NodupKeys ((k, v) ∷ m) = (lookup k m ≡ none) × NodupKeys m

  pub lookup-insert :
      (j k : Bytes) (v : V) (m : List (Bytes × V))
      → lookup j (insert k v m) ≡ (if eq_bytes k j then some v else lookup j m)
  unfolding lookup insert
  lookup-insert j k v [] = refl
  lookup-insert j k v ((i, w) ∷ m) =
      ground (arith, eq_bytes_iff k j, eq_bytes_iff i k, eq_bytes_iff i j, lookup-insert j k v m)

  pub insert-NodupKeys :
      (k : Bytes) (v : V) (m : List (Bytes × V)) → NodupKeys m → NodupKeys (insert k v m)
  unfolding insert lookup
  insert-NodupKeys k v [] h = (refl, tt)
  insert-NodupKeys k v ((j, w) ∷ m) (fresh, h) =
      ground
        (arith, eq_bytes_iff j k, eq_bytes_iff k j, insert-NodupKeys k v m h, lookup-insert j k v m)
