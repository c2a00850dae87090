-- ===== src/Patch/Kept.antt =====
-- That a GET shows what the PATCH before it has asked for.
use go_backend_examples.Common.{
  ℕ, String, ◌≡◌, ◌≢◌, refl, ◌∙◌, ap, true, false, Option, none, some, ℤ, List, [], ◌∷◌, Bytes,
  codes, FitsInt64,
}
use go_backend_examples.Strconv.{format_int}
use go_backend_examples.Strconv.RoundTrip.{parse_int-format_int}
use go_backend_examples.Patch.{User, Body, no_body, user_body, error_body, patch_user}
use go_backend_examples.Patch.Fields.{
  IsTextJson, IsTextChange, Change, keep, clear, replace, field_of, answer, outcome,
  patch_user-field_of,
}
use go_backend_examples.Patch.Text.{IsStorable}
use go_backend_examples.Patch.Store.{
  NullString, UserRow, Arg, int64, nullable, map_user_row, select_user, update_user, scanned, find,
  update_bio, found, get_parsed, get_user,
}

-- A column that may be NULL, as it is scanned.
abbrev pub null_string : Option Bytes → NullString
null_string none = record { text = codes ""; valid = false }
null_string (some s) = record { text = s; valid = true }

abbrev pub with_bio : Option Bytes → User → User
with_bio bio u = record { user_id = u.user_id; name = u.name; bio = bio }

abbrev pub change_of : (User → User) → Option User → Option User
change_of f none = none
change_of f (some u) = some (f u)

abbrev pub row_of : Option User → Option UserRow
row_of none = none
row_of (some u) = some (record { id = u.user_id; name = u.name; bio = null_string u.bio })

map_user_row-null_string :
    (n : ℤ) (name : String) (bio : Option Bytes)
    → map_user_row (record { id = n; name = name; bio = null_string bio })
      ≡ record { user_id = n; name = name; bio = bio }
unfolding map_user_row
map_user_row-null_string n name none = refl
map_user_row-null_string n name (some s) = refl

-- What a client gets that asks for a user, and that wants a change of it.
abbrev pub shown : Option User → ℕ × Body
shown none = (500, error_body "find user")
shown (some u) = (200, user_body u)

abbrev pub changed : Change → Option User → Option User
changed keep o = o
changed clear o = change_of (with_bio none) o
changed (replace s) o = change_of (with_bio (some s)) o

abbrev pub patched : Change → Option User → ℕ × Body
patched keep o = (204, no_body)
patched clear o = answer (changed clear o)
patched (replace s) o = answer (changed (replace s) o)

module _ {W Row : Type 0} (query_row : String → List Arg → W → Row × W)
    (scan : Row → W → Option UserRow × W) (users : W → ℤ → Option User) (IsUp : W → Type 0) where
  -- A statement with the scan of its row.
  abbrev scan_row : String → List Arg → W → Option UserRow × W
  scan_row sql args w = let (row, w') = query_row sql args w in scan row w'

  -- While the database answers (`IsUp`), the SELECT returns the row of its id, if there is one, and the
  -- UPDATE sets the bio of that row to NULL or a text, returns it, and leaves all others.
  pub record IsTable : Type 0 where
    pub select_law :
        (n : ℤ) (w : W) → IsUp w → (scan_row select_user (int64 n ∷ []) w).0 ≡ row_of (users w n)
    pub update_law :
        (n : ℤ) (bio : Option Bytes) (w : W)
        → IsStorable bio
        → IsUp w
        → let (row, w') = scan_row update_user (int64 n ∷ nullable bio ∷ []) w in
          (row ≡ row_of (change_of (with_bio bio) (users w n)))
          × (users w' n ≡ change_of (with_bio bio) (users w n))
          × ((k : ℤ) → k ≢ n → users w' k ≡ users w k)
          × IsUp w'

  scanned-row_of : (o : Option User) → scanned query_row scan (row_of o) ≡ o
  unfolding scanned
  scanned-row_of none = refl
  scanned-row_of (some u) = ap (λ v. some v) (map_user_row-null_string u.user_id u.name u.bio)

  find-users : IsTable → (n : ℤ) (w : W) → IsUp w → (find query_row scan n w).0 ≡ users w n
  unfolding find
  find-users laws n w up =
      ap (scanned query_row scan) (laws.select_law n w up) ∙ scanned-row_of (users w n)

  update_bio-users :
      IsTable
      → (n : ℤ) (bio : Option Bytes) (w : W) → IsStorable bio
      → IsUp w
      → (update_bio query_row scan n bio w).0 ≡ change_of (with_bio bio) (users w n)
  unfolding update_bio
  update_bio-users laws n bio w t up =
      ap (scanned query_row scan) (laws.update_law n bio w t up).0
      ∙ scanned-row_of (change_of (with_bio bio) (users w n))

  found-shown : (o : Option User) → found query_row scan o ≡ shown o
  unfolding found
  found-shown none = refl
  found-shown (some u) = refl

  pub get_user-users :
      IsTable
      → (n : ℤ) (w : W) → FitsInt64 n
      → IsUp w
      → (get_user query_row scan (format_int n) w).0 ≡ shown (users w n)
  unfolding get_user get_parsed
  get_user-users laws n w fits up =
      rw (parse_int-format_int n fits, find-users laws n w up, found-shown (users w n))

  -- The users behind an UPDATE.
  abbrev IsAfter : Change → ℤ → W → W → Type 0
  IsAfter c n w w' =
      (users w' n ≡ changed c (users w n)) × ((k : ℤ) → k ≢ n → users w' k ≡ users w k) × IsUp w'

  update_bio-IsAfter :
      IsTable
      → (n : ℤ) (bio : Option Bytes) (w : W) → IsStorable bio
      → IsUp w
      → let w' = (update_bio query_row scan n bio w).1 in
        (users w' n ≡ change_of (with_bio bio) (users w n))
        × ((k : ℤ) → k ≢ n → users w' k ≡ users w k)
        × IsUp w'
  unfolding update_bio
  update_bio-IsAfter laws n bio w t up =
      let (_, here, others, still) = laws.update_law n bio w t up in (here, others, still)

  outcome-IsAfter :
      IsTable
      → (c : Change) (n : ℤ) (w : W) → IsTextChange c
      → IsUp w
      → let (r, w') = outcome (update_bio query_row scan) n c w in
        (r ≡ patched c (users w n)) × IsAfter c n w w'
  outcome-IsAfter laws keep n w t up = (refl, (refl, (λ k h. refl), up))
  outcome-IsAfter laws clear n w t up =
      (ap answer (update_bio-users laws n none w t up), update_bio-IsAfter laws n none w t up)
  outcome-IsAfter laws (replace s) n w t up = (
    ap answer (update_bio-users laws n (some s) w t up),
    update_bio-IsAfter laws n (some s) w t up,
  )

  -- PATCH and then GET, while the database answers as `IsTable` says: a PATCH of the user `n` answers
  -- 204 for a missing bio, and otherwise 200 with the user under the new bio, or 500 if there is no
  -- such user; a GET of `n` after it shows that user with the bio that was asked for, and a GET of
  -- another user shows what was there before. The ids are the decimal texts of int64s, the string that
  -- is asked for is valid UTF-8 without NUL, and json.Unmarshal reads back what the client writes for
  -- such a string.
  pub get_user-patch_user :
      (encode : Bytes → Bytes) (decode : Bytes → Option Bytes)
      → IsTextJson encode decode
      → IsTable
      → (c : Change) (n m : ℤ) (w : W) → IsTextChange c
      → FitsInt64 n
      → FitsInt64 m
      → m ≢ n
      → IsUp w
      → let (r, w') =
          patch_user decode
            (update_bio query_row scan)
            (format_int n)
            (some (field_of encode c))
            w in
        (r ≡ patched c (users w n))
        × ((get_user query_row scan (format_int n) w').0 ≡ shown (changed c (users w n)))
        × ((get_user query_row scan (format_int m) w').0 ≡ shown (users w m))
  get_user-patch_user encode decode json laws c n m w t fits_n fits_m other up =
      let (told, (here, others, still)) = outcome-IsAfter laws c n w t up in
      rw (patch_user-field_of encode decode (update_bio query_row scan) n c w json t fits_n) (
        told,
        get_user-users laws n _ fits_n still ∙ ap shown here,
        get_user-users laws m _ fits_m still ∙ ap shown (others m other),
      )
