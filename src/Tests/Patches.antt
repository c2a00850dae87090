-- ===== src/Tests/Patches.antt =====
-- PATCH and GET of optional on a table with one user.
use go_backend_examples.Common.{
  true, false, zero, suc, String, ◌≡◌, ◌≢◌, refl, List, [], ◌∷◌, Option, none, some, ℤ, pos, negsuc,
  Bytes, codes, arith,
}
use go_backend_examples.Strconv.{format_int}
use go_backend_examples.Patch.{User, patch_user}
use go_backend_examples.Patch.Fields.{replace, field_of}
use go_backend_examples.Patch.Store.{UserRow, Arg, int64, nullable, update_bio, get_user}
use go_backend_examples.Patch.Kept.{
  IsTable, row_of, with_bio, change_of, patched, shown, changed, get_user-patch_user,
}
use go_backend_examples.Tests.Web.{quote, unquote, quote-IsTextJson}
use go_backend_examples.Patch.Text.{IsText, is_text_from}

-- The bio of the user 1 is the world.
abbrev pub users : Option Bytes → ℤ → Option User
users bio (pos (suc zero)) = some (record { user_id = pos 1; name = "Alice"; bio = bio })
users bio _ = none

abbrev stored : ℤ → Option Bytes → Option Bytes → Option Bytes
stored (pos (suc zero)) bio w = bio
stored _ bio w = w

abbrev pub query_row : String → List Arg → Option Bytes → Option UserRow × Option Bytes
query_row sql (int64 n ∷ []) w = (row_of (users w n), w)
query_row sql (int64 n ∷ nullable bio ∷ []) w =
    (row_of (change_of (with_bio bio) (users w n)), stored n bio w)
query_row sql _ w = (none, w)

abbrev pub scan : Option UserRow → Option Bytes → Option UserRow × Option Bytes
scan row w = (row, w)

users-here :
    (n : ℤ) (bio w : Option Bytes) → users (stored n bio w) n ≡ change_of (with_bio bio) (users w n)
users-here (pos zero) bio w = refl
users-here (pos (suc zero)) bio w = refl
users-here (pos (suc (suc n))) bio w = refl
users-here (negsuc n) bio w = refl

users-others : (n k : ℤ) (bio w : Option Bytes) → k ≢ n → users (stored n bio w) k ≡ users w k
users-others (pos zero) k bio w h = refl
users-others (pos (suc zero)) (pos zero) bio w h = refl
users-others (pos (suc zero)) (pos (suc zero)) bio w h = absurd (h refl)
users-others (pos (suc zero)) (pos (suc (suc k))) bio w h = refl
users-others (pos (suc zero)) (negsuc k) bio w h = refl
users-others (pos (suc (suc n))) k bio w h = refl
users-others (negsuc n) k bio w h = refl

pub table : IsTable query_row scan users (λ w. Unit)
table = record {
  select_law = λ n w up. refl;
  update_law = λ n bio w t up. (refl, users-here n bio w, (λ k h. users-others n k bio w h), tt);
}

updated-IsText : IsText (codes "updated bio")
unfolding is_text_from
updated-IsText = refl

-- NUL, a lone continuation byte and a surrogate are no text, and the letter e with an acute accent is one.
texts :
    (is_text_from 0 0 0 (0 ∷ []) ≡ false)
    × (is_text_from 0 0 0 (128 ∷ []) ≡ false)
    × (is_text_from 0 0 0 (237 ∷ 160 ∷ 128 ∷ []) ≡ false)
    × (is_text_from 0 0 0 (195 ∷ 169 ∷ []) ≡ true)
unfolding is_text_from
texts = (refl, refl, refl, refl)

two_one : pos 2 ≢ pos 1
two_one = cc

get_user-patch_user_example :
    let (r, w') =
      patch_user unquote
        (update_bio query_row scan)
        (format_int (pos 1))
        (some (field_of quote (replace (codes "updated bio"))))
        (some (codes "original bio")) in
    (r ≡ patched (replace (codes "updated bio")) (users (some (codes "original bio")) (pos 1)))
    × ((get_user query_row scan (format_int (pos 1)) w').0
        ≡ shown
            (changed (replace (codes "updated bio")) (users (some (codes "original bio")) (pos 1))))
    × ((get_user query_row scan (format_int (pos 2)) w').0
        ≡ shown (users (some (codes "original bio")) (pos 2)))
get_user-patch_user_example =
    get_user-patch_user query_row scan users (λ w. Unit) quote unquote quote-IsTextJson table
      (replace (codes "updated bio")) (pos 1) (pos 2) (some (codes "original bio")) updated-IsText
      (omega arith) (omega arith) two_one tt
