-- ===== src/Common/Order.antt =====
-- The order of byte strings, and sort.Strings.
use mathlib.Core.Path.{◌≡◌, refl}
use mathlib.Core.Bool.{Bool, true, false}
use mathlib.Core.List.{List, [], ◌∷◌}
use native.Mathlib.Omega.{arith}
use go_backend_examples.Common.Tests.{ltb, ◌==◌, if◌then◌else◌}
use go_backend_examples.Common.Lists.{Bytes}

-- Go's `<` on strings.
unfoldable pub lt_bytes : Bytes → Bytes → Bool
lt_bytes s [] = false
lt_bytes [] (b ∷ t) = true
lt_bytes (a ∷ s) (b ∷ t) = if a == b then lt_bytes s t else ltb a b

pub lt_bytes_irrefl : (s : Bytes) → lt_bytes s s ≡ false
unfolding lt_bytes
lt_bytes_irrefl [] = refl
lt_bytes_irrefl (a ∷ s) = ground (arith, lt_bytes_irrefl s)

pub lt_bytes_trans :
    (s t u : Bytes) → lt_bytes s t ≡ true → lt_bytes t u ≡ true → lt_bytes s u ≡ true
unfolding lt_bytes
lt_bytes_trans [] [] u h k = cc
lt_bytes_trans (a ∷ s) [] u h k = cc
lt_bytes_trans [] (b ∷ t) [] h k = cc
lt_bytes_trans [] (b ∷ t) (c ∷ u) h k = refl
lt_bytes_trans (a ∷ s) (b ∷ t) [] h k = cc
lt_bytes_trans (a ∷ s) (b ∷ t) (c ∷ u) h k = ground (arith, lt_bytes_trans s t u)

pub lt_bytes_total : (s t : Bytes) → lt_bytes s t ≡ false → lt_bytes t s ≡ false → s ≡ t
unfolding lt_bytes
lt_bytes_total [] [] h k = refl
lt_bytes_total [] (b ∷ t) h k = cc
lt_bytes_total (a ∷ s) [] h k = cc
lt_bytes_total (a ∷ s) (b ∷ t) h k = ground (arith, lt_bytes_total s t)

-- sort.Strings: the ascending arrangement.
abbrev pub insert_sorted : Bytes → List Bytes → List Bytes
insert_sorted k [] = k ∷ []
insert_sorted k (j ∷ js) = if lt_bytes j k then j ∷ insert_sorted k js else k ∷ (j ∷ js)

unfoldable pub sort_strings : List Bytes → List Bytes
sort_strings [] = []
sort_strings (k ∷ ks) = insert_sorted k (sort_strings ks)
