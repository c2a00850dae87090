-- ===== src/Validation.antt =====
-- validate_structs: the validator of structs with translated messages (validate_wrapper.go), and the
-- handler that answers with them (main.go).
pub mod Answers
use mathlib.Core.List.{◌++◌}
use go_backend_examples.Common.{
  ℕ, Bool, true, false, not, ◌==◌, if◌then◌else◌, String, Option, none, some, List, [], ◌∷◌, Bytes,
  codes, eq_bytes, insert,
}
use go_backend_examples.Action.{GoError, wrap, Result, ok, err}

pub record PostRequest : Type 0 where
  pub title : Bytes
  pub description : Bytes

-- A field of a struct as reflection shows it: its name, and its tags json and validate.
pub record StructField : Type 0 where
  pub name : Bytes
  pub json_tag : Bytes
  pub validate_tag : Bytes

abbrev pub title_field : StructField
title_field = record {
  name = codes "Title";
  json_tag = codes "title";
  validate_tag = codes "required,min=1,max=255";
}

abbrev pub description_field : StructField
description_field = record {
  name = codes "Description";
  json_tag = codes "description";
  validate_tag = codes "required";
}

-- The fields of a PostRequest with their values.
abbrev pub fields_of : PostRequest → List (StructField × Bytes)
fields_of req = (title_field, req.title) ∷ (description_field, req.description) ∷ []

pub record OkResponse : Type 0 where
  pub ok_field : Bool

pub record ErrorResponse : Type 0 where
  pub errors : List (Bytes × Bytes)

-- A validator.FieldError: the name of its field, and the tag that failed.
pub record FieldError : Type 0 where
  pub field : Bytes
  pub tag : Bytes

-- What validator.Struct returns: nil, ValidationErrors, or another error.
pub data Checked : Type 0 where
  valid : Checked
  failures : List FieldError → Checked
  invalid : GoError → Checked

-- ut.UniversalTranslator.
pub record Uni (Tr : Type 0) : Type 0 where
  pub get_translator : Bytes → Tr × Bool
  pub fallback : Tr

abbrev pub TagNameFunc : Type 0
TagNameFunc = Bytes → Bytes

-- The translator, and the function that the validator has been given for the names of fields.
pub record StructValidator (Tr : Type 0) : Type 0 where
  pub uni : Uni Tr
  pub tag_name : Option TagNameFunc

-- strings.SplitN(s, ",", 2)[0].
unfoldable pub before_comma : Bytes → Bytes
before_comma [] = []
before_comma (c ∷ s) = let rest = before_comma s in if c == b',' then [] else c ∷ rest

-- The function that UseJsonTags registers, from the tag json of a field.
unfoldable pub json_name : TagNameFunc
json_name tag = if eq_bytes (before_comma tag) (codes "-") then codes "" else before_comma tag

module _ {Tr : Type 0} where
  abbrev pub new_struct_validator : Uni Tr → StructValidator Tr
  new_struct_validator uni = record { uni = uni; tag_name = none }

  abbrev pub use_json_tags : StructValidator Tr → StructValidator Tr
  use_json_tags sv = record { uni = sv.uni; tag_name = some json_name }

  unfoldable pub chosen : Tr × Bool → Tr → Tr
  chosen (trans, exists) other = if not exists then other else trans

  -- The translator of a locale, or the fallback.
  abbrev pub translator_of : Uni Tr → Bytes → Tr
  translator_of uni locale = chosen (uni.get_translator locale) uni.fallback

  module _ (translate : Tr → FieldError → Bytes) where
    -- The loop over the errors, which writes the map.
    unfoldable pub add_messages : Tr → List FieldError → List (Bytes × Bytes) → List (Bytes × Bytes)
    add_messages trans [] messages = messages
    add_messages trans (fe ∷ fes) messages =
        add_messages trans fes (insert fe.field (translate trans fe) messages)

    unfoldable pub checked_messages :
        StructValidator Tr → Bytes → Checked → Result (Option (List (Bytes × Bytes)))
    unfolding add_messages
    checked_messages sv locale valid = ok none
    checked_messages sv locale (failures fes) =
        ok (some (add_messages (translator_of sv.uni locale) fes []))
    checked_messages sv locale (invalid e) =
        err (wrap "error is not of type 'validator.ValidationErrors'" e)

    -- `struct` is validator.Struct, of a validator with the function for names; it sees the fields of
    -- the struct.
    abbrev pub validate_struct :
        (Option TagNameFunc → List (StructField × Bytes) → Checked)
        → StructValidator Tr
        → List (StructField × Bytes)
        → Bytes
        → Result (Option (List (Bytes × Bytes)))
    validate_struct struct sv s locale = checked_messages sv locale (struct sv.tag_name s)

-- What the handler encodes as JSON, and what it logs.
pub data Event : Type 0 where
  sent_ok : OkResponse → Event
  sent_errors : ErrorResponse → Event
  logged_decode : Event
  logged_validation : GoError → Event
  logged_encode : String → Event

abbrev pub World : Type 0
World = List Event

-- `accept` is the error of Encode, on what has been sent before.
module _ (accept : Event → World → Option String) where
  unfoldable pub logged : Option String → World → World
  logged none w = w
  logged (some e) w = w ++ (logged_encode e ∷ [])

  unfoldable pub encode : Event → World → World
  unfolding logged
  encode p w = logged (accept p w) (w ++ (p ∷ []))

  unfoldable pub answer : Result (Option (List (Bytes × Bytes))) → World → World
  unfolding encode
  answer (err e) w = w ++ (logged_validation e ∷ [])
  answer (ok (some messages)) w = encode (sent_errors (record { errors = messages })) w
  answer (ok none) w = encode (sent_ok (record { ok_field = true })) w

  -- ValidateHandler, from the body as it is decoded and the header Accept-Language.
  unfoldable pub validate_handler :
      {Tr : Type 0}
      → (Tr → FieldError → Bytes)
      → (Option TagNameFunc → List (StructField × Bytes) → Checked)
      → StructValidator Tr
      → Option PostRequest
      → Bytes
      → World
      → World
  unfolding answer
  validate_handler translate struct sv none lang w = w ++ (logged_decode ∷ [])
  validate_handler translate struct sv (some req) lang w =
      answer (validate_struct translate struct sv (fields_of req) lang) w
