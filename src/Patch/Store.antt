-- ===== src/Patch/Store.antt =====
-- optional/repository.go, and the way of a GET request from the handler to it (handler.go, service.go).
use go_backend_examples.Common.{
  ℕ, String, Bool, if◌then◌else◌, Option, none, some, ℤ, List, [], ◌∷◌, Bytes,
}
use go_backend_examples.Strconv.{parse_int}
use go_backend_examples.Patch.{User, Body, user_body, error_body}

-- A sql.NullString.
pub record NullString : Type 0 where
  pub text : Bytes
  pub valid : Bool

pub record UserRow : Type 0 where
  pub id : ℤ
  pub name : String
  pub bio : NullString

-- An argument of a statement: an int64, or a *string.
pub data Arg : Type 0 where
  int64 : ℤ → Arg
  nullable : Option Bytes → Arg

unfoldable pub map_user_row : UserRow → User
map_user_row row = record {
  user_id = row.id;
  name = row.name;
  bio = if row.bio.valid then some row.bio.text else none;
}

abbrev pub select_user : String
select_user = "SELECT id, name, bio FROM users WHERE id = $1"

abbrev pub update_user : String
update_user =
    "\n\t\tUPDATE users\n\t\tSET bio = $2\n\t\tWHERE id = $1\n\t\tRETURNING id, name, bio\n\t"

-- `query_row` is QueryRow of the pool, and `scan` the Scan of a row into a userRow; none for an error.
module _ {W Row : Type 0} (query_row : String → List Arg → W → Row × W)
    (scan : Row → W → Option UserRow × W) where
  unfoldable pub scanned : Option UserRow → Option User
  scanned none = none
  scanned (some row) = some (map_user_row row)

  unfoldable pub scan_user : Row → W → Option User × W
  unfolding scanned
  scan_user row w = let (r, w') = scan row w in (scanned r, w')

  -- UserRepository.Find, which UserService.Find passes on, and UserRepository.UpdateBio.
  unfoldable pub find : ℤ → W → Option User × W
  unfolding scan_user
  find n w = let (row, w') = query_row select_user (int64 n ∷ []) w in scan_user row w'

  unfoldable pub update_bio : ℤ → Option Bytes → W → Option User × W
  unfolding scan_user
  update_bio n bio w =
      let (row, w') = query_row update_user (int64 n ∷ nullable bio ∷ []) w in scan_user row w'

  unfoldable pub found : Option User → ℕ × Body
  found none = (500, error_body "find user")
  found (some user) = (200, user_body user)

  unfoldable pub get_parsed : Option ℤ → W → (ℕ × Body) × W
  unfolding found find
  get_parsed none w = ((400, error_body "invalid user id"), w)
  get_parsed (some n) w = let (user, w') = find n w in (found user, w')

  -- UserHandler.getUser, from the path value `id`.
  unfoldable pub get_user : Bytes → W → (ℕ × Body) × W
  unfolding get_parsed
  get_user id_text w = get_parsed (parse_int id_text) w
