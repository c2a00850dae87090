-- ===== src/Patch/Fields.antt =====
-- That a missing field, null and a value arrive as such.
use go_backend_examples.Common.{
  ℕ, ◌≡◌, refl, subst, false, Option, none, some, ℤ, Bytes, codes, eq_bytes, FitsInt64,
}
use go_backend_examples.Strconv.{format_int}
use go_backend_examples.Patch.Text.{IsText}
use go_backend_examples.Strconv.RoundTrip.{parse_int-format_int}
use go_backend_examples.Patch.{
  Optional, null_optional, value_optional, unmarshal_json, marshal_json, decoded, User, Body,
  no_body, user_body, error_body, service_update_bio, respond, updated, decode_bio, patch_decoded,
  patch_parsed, patch_user,
}

-- json.Marshal and json.Unmarshal of a T: what is encoded is decoded, and is not the text null.
pub record IsJson {T : Type 0} (encode : T → Option Bytes) (decode : Bytes → Option T)
    : Type 0 where
  pub decoded_back : (v : T) (s : Bytes) → encode v ≡ some s → decode s ≡ some v
  pub not_null : (v : T) (s : Bytes) → encode v ≡ some s → eq_bytes s (codes "null") ≡ false

-- Null() and Value(v).
abbrev pub optional_of : {T : Type 0} → T → Option T → Optional T
optional_of zero none = null_optional zero
optional_of zero (some v) = value_optional v

unmarshal_json-null :
    {T : Type 0} (decode : Bytes → Option T) (zero : T)
    → unmarshal_json decode zero (codes "null") ≡ some (null_optional zero)
unfolding unmarshal_json eq_bytes
unmarshal_json-null decode zero = refl

-- An optional value that is null or set is read back from its JSON, if json.Unmarshal reads back what
-- json.Marshal writes and that is not the text null.
pub unmarshal_json-marshal_json :
    {T : Type 0} (encode : T → Option Bytes) (decode : Bytes → Option T) (zero : T) (v : Option T)
    (s : Bytes)
    → IsJson encode decode
    → marshal_json encode (optional_of zero v) ≡ some s
    → unmarshal_json decode zero s ≡ some (optional_of zero v)
unfolding marshal_json unmarshal_json decoded
unmarshal_json-marshal_json encode decode zero none s laws h =
    subst (λ t. unmarshal_json decode zero t ≡ some (null_optional zero)) (cc h)
      (unmarshal_json-null decode zero)
unmarshal_json-marshal_json encode decode zero (some v) s laws h =
    rw (laws.not_null v s h, laws.decoded_back v s h)

-- What a client relies on that sends a string: json.Unmarshal reads back a text that `encode` has
-- written, which is not the text null.
pub record IsTextJson (encode : Bytes → Bytes) (decode : Bytes → Option Bytes) : Type 0 where
  pub read_back : (s : Bytes) → IsText s → decode (encode s) ≡ some s
  pub a_string : (s : Bytes) → IsText s → eq_bytes (encode s) (codes "null") ≡ false

-- What a client asks for.
pub data Change : Type 0 where
  keep clear : Change
  replace : Bytes → Change

-- A change to a text.
abbrev pub IsTextChange : Change → Type 0
IsTextChange keep = Unit
IsTextChange clear = Unit
IsTextChange (replace s) = IsText s

-- What the client sends in the field: nothing, null, or a string as `encode` writes it.
abbrev pub field_of : (Bytes → Bytes) → Change → Option Bytes
field_of encode keep = none
field_of encode clear = some (codes "null")
field_of encode (replace s) = some (encode s)

abbrev pub answer : Option User → ℕ × Body
answer none = (500, error_body "patch user")
answer (some user) = (200, user_body user)

module _ {W : Type 0} (update_bio : ℤ → Option Bytes → W → Option User × W) where
  -- What it gets: its own wish carried out, at most one update of the database.
  abbrev pub outcome : ℤ → Change → W → (ℕ × Body) × W
  outcome n keep w = ((204, no_body), w)
  outcome n clear w = let (user, w') = update_bio n none w in (answer user, w')
  outcome n (replace s) w = let (user, w') = update_bio n (some s) w in (answer user, w')

respond-updated :
    {W : Type 0} (decode : Bytes → Option Bytes)
    (update_bio : ℤ → Option Bytes → W → Option User × W) (user : Option User)
    → respond decode update_bio (updated decode update_bio user) ≡ answer user
unfolding respond updated
respond-updated decode update_bio none = refl
respond-updated decode update_bio (some user) = refl

-- PATCH /users/{id} with the decimal text of an int64 as id: a missing bio answers 204 and leaves the
-- database, null updates the bio to NULL, and a text updates it to that text; an update answers 200
-- with the user, or 500 if it fails.
pub patch_user-field_of :
    {W : Type 0} (encode : Bytes → Bytes) (decode : Bytes → Option Bytes)
    (update_bio : ℤ → Option Bytes → W → Option User × W) (n : ℤ) (c : Change) (w : W)
    → IsTextJson encode decode
    → IsTextChange c
    → FitsInt64 n
    → patch_user decode update_bio (format_int n) (some (field_of encode c)) w
      ≡ outcome update_bio n c w
unfolding patch_user patch_parsed patch_decoded decode_bio unmarshal_json decoded service_update_bio
patch_user-field_of encode decode update_bio n keep w laws t h = rw (parse_int-format_int n h)
patch_user-field_of encode decode update_bio n clear w laws t h = rw (
  parse_int-format_int n h,
  unmarshal_json-null decode (codes ""),
  respond-updated decode update_bio,
)
patch_user-field_of encode decode update_bio n (replace s) w laws t h = rw (
  parse_int-format_int n h,
  laws.a_string s t,
  laws.read_back s t,
  respond-updated decode update_bio,
)
