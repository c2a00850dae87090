-- ===== src/Patch.antt =====
-- optional: an optional value that tells a missing field from null (optional/optional.go,
-- jsonoptional/optional.go), and the handler that patches a user's bio with it (service.go, handler.go,
-- http_models.go).
pub mod Text
pub mod Fields
pub mod Store
pub mod Kept
pub mod Program
pub mod Serves
use go_backend_examples.Common.{
  ℕ, String, Bool, true, false, not, ◌||◌, ◌&&◌, if◌then◌else◌, Option, none, some, ℤ, Bytes, codes,
  eq_bytes,
}
use go_backend_examples.Strconv.{parse_int}

pub record Optional (T : Type 0) : Type 0 where
  pub value : T
  pub set : Bool
  pub null : Bool

module _ {T : Type 0} where
  -- `zero` is the zero value of T.
  abbrev pub unset_optional : T → Optional T
  unset_optional zero = record { value = zero; set = false; null = false }

  abbrev pub null_optional : T → Optional T
  null_optional zero = record { value = zero; set = true; null = true }

  abbrev pub value_optional : T → Optional T
  value_optional v = record { value = v; set = true; null = false }

  abbrev pub is_set : Optional T → Bool
  is_set n = n.set

  abbrev pub is_null : Optional T → Bool
  is_null n = n.set && n.null

  -- The method Value; a `false` stands for the zero value beside it.
  abbrev pub value_of : Optional T → Option T
  value_of n = if not n.set || n.null then none else some n.value

  -- The method Ptr: nil, or a pointer to the value.
  abbrev pub ptr : Optional T → Option T
  ptr n = if not n.set || n.null then none else some n.value

  -- UnmarshalJSON; `decode` is json.Unmarshal into a T, and an error is none.
  unfoldable pub decoded : Option T → Option (Optional T)
  decoded none = none
  decoded (some v) = some (value_optional v)

  unfoldable pub unmarshal_json : (Bytes → Option T) → T → Bytes → Option (Optional T)
  unfolding decoded
  unmarshal_json decode zero data_bytes =
      if eq_bytes data_bytes (codes "null")
      then some (null_optional zero)
      else decoded (decode data_bytes)

  -- MarshalJSON; `encode` is json.Marshal.
  unfoldable pub marshal_json : (T → Option Bytes) → Optional T → Option Bytes
  marshal_json encode o =
      if not (is_set o) || is_null o then some (codes "null") else encode o.value

pub record User : Type 0 where
  pub user_id : ℤ
  pub name : String
  pub bio : Option Bytes

-- What a handler writes after the status; the text of an error value is left off its message.
pub data Body : Type 0 where
  no_body : Body
  user_body : User → Body
  error_body : String → Body

-- `decode` is json.Unmarshal into a string. `update_bio` is the repository's UpdateBio: the statement
-- `UPDATE users SET bio = $2 WHERE id = $1 RETURNING …`, none for an error.
module _ {W : Type 0} (decode : Bytes → Option Bytes)
    (update_bio : ℤ → Option Bytes → W → Option User × W) where
  -- UserService.UpdateBio: an error, or the user if there was an update.
  unfoldable pub updated : Option User → Option (Option User)
  updated none = none
  updated (some user) = some (some user)

  unfoldable pub service_update_bio : ℤ → Optional Bytes → W → Option (Option User) × W
  unfolding updated
  service_update_bio n bio w =
      if not (is_set bio)
      then (some none, w)
      else (let (user, w') = update_bio n (ptr bio) w in (updated user, w'))

  unfoldable pub respond : Option (Option User) → ℕ × Body
  respond none = (500, error_body "patch user")
  respond (some none) = (204, no_body)
  respond (some (some user)) = (200, user_body user)

  -- The field `bio` of the body, as json.Decoder hands it to UnmarshalJSON, which it does not call for
  -- a field that is missing; none for a body that is no JSON object.
  unfoldable pub decode_bio : Option (Option Bytes) → Option (Optional Bytes)
  decode_bio none = none
  decode_bio (some none) = some (unset_optional (codes ""))
  decode_bio (some (some raw)) = unmarshal_json decode (codes "") raw

  unfoldable pub patch_decoded : ℤ → Option (Optional Bytes) → W → (ℕ × Body) × W
  unfolding service_update_bio respond
  patch_decoded n none w = ((400, error_body "decode request"), w)
  patch_decoded n (some bio) w = let (r, w') = service_update_bio n bio w in (respond r, w')

  unfoldable pub patch_parsed : Option ℤ → Option (Option Bytes) → W → (ℕ × Body) × W
  unfolding patch_decoded decode_bio
  patch_parsed none field w = ((400, error_body "invalid user id"), w)
  patch_parsed (some n) field w = patch_decoded n (decode_bio field) w

  -- UserHandler.patchUser, from the path value `id` and the field.
  unfoldable pub patch_user : Bytes → Option (Option Bytes) → W → (ℕ × Body) × W
  unfolding patch_parsed
  patch_user id_text field w = patch_parsed (parse_int id_text) field w
