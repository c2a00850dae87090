-- ===== src/Patch/Text.antt =====
-- The texts that both JSON and a column of type TEXT hold as they are.
use go_backend_examples.Common.{
  ℕ, zero, suc, ◌≡◌, leb, Bool, true, false, ◌&&◌, ◌==◌, if◌then◌else◌, Option, none, some, [], ◌∷◌,
  Bytes,
}

-- The first byte of a character of UTF-8 other than NUL: how many bytes follow it, and from where to
-- where the next one is.
abbrev pub lead : ℕ → Option (ℕ × ℕ × ℕ)
lead c =
    if leb 1 c && leb c 127
    then some (0, 0, 0)
    else if leb 194 c && leb c 223
    then some (1, 128, 191)
    else if c == 224
    then some (2, 160, 191)
    else if c == 237
    then some (2, 128, 159)
    else if leb 225 c && leb c 239
    then some (2, 128, 191)
    else if c == 240
    then some (3, 144, 191)
    else if leb 241 c && leb c 243
    then some (3, 128, 191)
    else if c == 244
    then some (3, 128, 143)
    else none

-- Valid UTF-8 without NUL, where `pending` more bytes of a character are to come.
unfoldable pub is_text_from : ℕ → ℕ → ℕ → Bytes → Bool
is_text_from zero lo hi [] = true
is_text_from (suc n) lo hi [] = false
is_text_from zero lo hi (c ∷ s) = elim (lead c) [
  | none ↦ false
  | some (n, lo', hi') ↦ is_text_from n lo' hi' s
]
is_text_from (suc n) lo hi (c ∷ s) =
    let rest = is_text_from n 128 191 s in (leb lo c && leb c hi) && rest

abbrev pub IsText : Bytes → Type 0
IsText s = is_text_from 0 0 0 s ≡ true

-- NULL, or such a text.
abbrev pub IsStorable : Option Bytes → Type 0
IsStorable none = Unit
IsStorable (some s) = IsText s
