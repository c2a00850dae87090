-- ===== src/Validation/Answers.antt =====
-- What a client of the validation example is answered.
use go_backend_examples.Common.{
  String, ℕ, ltb, ◌≡◌, refl, Bool, true, false, if◌then◌else◌, Option, none, some, List, [], ◌∷◌,
  Bytes, codes, eq_bytes, insert, take, drop, ◌==◌,
}
use go_backend_examples.Strconv.Decimal.{parse_uint, scan}
use go_backend_examples.Validation.{
  StructField, title_field, description_field, fields_of, PostRequest, FieldError, Checked, valid,
  failures, Uni, TagNameFunc, before_comma, json_name, new_struct_validator, use_json_tags,
  translator_of, add_messages, checked_messages, Event, sent_ok, sent_errors, World, encode, answer,
  validate_handler,
}

abbrev pub is_empty : Bytes → Bool
is_empty [] = true
is_empty (c ∷ s) = false

-- The rules that the tags of the example use.
pub data Rule : Type 0 where
  required : Rule
  at_least at_most : ℕ → Rule

abbrev pub tag_of : Rule → Bytes
tag_of required = codes "required"
tag_of (at_least n) = codes "min"
tag_of (at_most n) = codes "max"

abbrev bounded : (ℕ → Rule) → Option ℕ → Option Rule
bounded f none = none
bounded f (some n) = some (f n)

-- A rule as it is written: required, min=<digits> or max=<digits>.
unfoldable pub rule_of : Bytes → Option Rule
rule_of s =
    if eq_bytes s (codes "required")
    then some required
    else if eq_bytes (take 4 s) (codes "min=")
    then bounded at_least (parse_uint (drop 4 s))
    else if eq_bytes (take 4 s) (codes "max=")
    then bounded at_most (parse_uint (drop 4 s))
    else none

abbrev grown : ℕ → List Bytes → List Bytes
grown c [] = (c ∷ []) ∷ []
grown c (s ∷ ss) = (c ∷ s) ∷ ss

-- The texts between the commas of a tag.
unfoldable pub split_commas : Bytes → List Bytes
split_commas [] = [] ∷ []
split_commas (c ∷ s) = let rest = split_commas s in if c == b',' then [] ∷ rest else grown c rest

abbrev joined : Option Rule → Option (List Rule) → Option (List Rule)
joined none rs = none
joined (some r) none = none
joined (some r) (some rs) = some (r ∷ rs)

abbrev parsed : List Bytes → Option (List Rule)
parsed [] = some []
parsed (s ∷ ss) = joined (rule_of s) (parsed ss)

abbrev pub rules_of : Bytes → Option (List Rule)
rules_of tag = parsed (split_commas tag)

-- What a client may send: a title of 1 to 255 characters, and a description. `rune_count` counts the
-- characters of a string.
module _ (rune_count : Bytes → ℕ) where
  abbrev pub title_problem : Bytes → Option Bytes
  title_problem title =
      if is_empty title
      then some (codes "required")
      else if ltb (rune_count title) 1
      then some (codes "min")
      else if ltb 255 (rune_count title)
      then some (codes "max")
      else none

abbrev pub description_problem : Bytes → Option Bytes
description_problem s = if is_empty s then some (codes "required") else none

module _ (rune_count : Bytes → ℕ) where
  abbrev pub fails : Rule → Bytes → Bool
  fails required s = is_empty s
  fails (at_least n) s = ltb (rune_count s) n
  fails (at_most n) s = ltb n (rune_count s)

  -- The first rule that a text fails.
  abbrev pub first_failing : List Rule → Bytes → Option Bytes
  first_failing [] s = none
  first_failing (r ∷ rs) s =
      let later = first_failing rs s in if fails r s then some (tag_of r) else later

abbrev non_empty : Bytes → Bytes → Bytes
non_empty [] own = own
non_empty (c ∷ s) own = c ∷ s

abbrev pub name_of : Option TagNameFunc → StructField → Bytes
name_of none f = f.name
name_of (some g) f = non_empty (g f.json_tag) f.name

abbrev pub field_errors : Bytes → Option Bytes → List FieldError → List FieldError
field_errors name none fes = fes
field_errors name (some tag) fes = record { field = name; tag = tag } ∷ fes

abbrev pub checked_of : List FieldError → Checked
checked_of [] = valid
checked_of (fe ∷ fes) = failures (fe ∷ fes)

module _ (rune_count : Bytes → ℕ) (names : Option TagNameFunc) where
  abbrev with_rules :
      StructField → Bytes → Option (List Rule) → Option (List FieldError) → Option (List FieldError)
  with_rules f s none fes = none
  with_rules f s (some rs) none = none
  with_rules f s (some rs) (some fes) =
      some (field_errors (name_of names f) (first_failing rune_count rs s) fes)

  -- The errors of a struct, if its tags are made of the rules above: of each field the first rule that
  -- fails, with the name that the registered function makes of its tag json, or its own name if that is
  -- empty.
  abbrev pub errors_of : List (StructField × Bytes) → Option (List FieldError)
  errors_of [] = some []
  errors_of ((f, s) ∷ fs) = with_rules f s (rules_of f.validate_tag) (errors_of fs)

-- What the package validator documents for its rules required, min and max on strings.
abbrev pub IsValidator :
    (Bytes → ℕ) → (Option TagNameFunc → List (StructField × Bytes) → Checked) → Type 0
IsValidator rune_count struct =
    (names : Option TagNameFunc) (fields : List (StructField × Bytes)) (fes : List FieldError)
    → errors_of rune_count names fields ≡ some fes
    → struct names fields ≡ checked_of fes

fields_of-errors :
    (rune_count : Bytes → ℕ) (names : Option TagNameFunc) (req : PostRequest)
    → errors_of rune_count names (fields_of req)
      ≡ some (
          field_errors (name_of names title_field) (title_problem rune_count req.title) (
            field_errors
              (name_of names description_field)
              (description_problem req.description)
              []))
unfolding rule_of split_commas eq_bytes parse_uint scan
fields_of-errors rune_count names req = refl

-- What a client is told, from the problems of its title and its description.
module _ (message : Bytes → Bytes → Bytes) where
  abbrev pub told : Option Bytes → Option Bytes → Event
  told none none = sent_ok (record { ok_field = true })
  told (some t) none =
      sent_errors (record { errors = (codes "title", message (codes "title") t) ∷ [] })
  told none (some d) =
      sent_errors (record { errors = (codes "description", message (codes "description") d) ∷ [] })
  told (some t) (some d) = sent_errors (record {
    errors =
        (codes "title", message (codes "title") t)
        ∷ (codes "description", message (codes "description") d)
        ∷ [];
  })

module _ {Tr : Type 0} (uni : Uni Tr) (translate : Tr → FieldError → Bytes) (lang : Bytes) where
  abbrev pub message : Bytes → Bytes → Bytes
  message name tag = translate (translator_of uni lang) (record { field = name; tag = tag })

  module _ (accept : Event → World → Option String) where
    answer-told :
        (t d : Option Bytes) (w : World)
        → answer accept
            (checked_messages translate (use_json_tags (new_struct_validator uni)) lang (
              checked_of (
                field_errors
                  (name_of (some json_name) title_field)
                  t
                  (field_errors (name_of (some json_name) description_field) d []))))
            w
          ≡ encode accept (told message t d) w
    unfolding answer checked_messages add_messages insert json_name before_comma eq_bytes
    answer-told none none w = refl
    answer-told none (some d) w = refl
    answer-told (some t) none w = refl
    answer-told (some t) (some d) w = refl

    -- POST / with a body that is decoded, on a validator that UseJsonTags has set up and that checks the
    -- rules required, min and max of any struct as documented: the answer is {"ok":true} if the title has
    -- 1 to 255 characters and there is a description, and otherwise the errors, of exactly the fields that
    -- fail, under their JSON names, each with the message for the first rule of its tag that fails in the
    -- language of the request, or in the fallback language.
    pub validate_handler-told :
        (rune_count : Bytes → ℕ)
        (struct : Option TagNameFunc → List (StructField × Bytes) → Checked) (req : PostRequest)
        (w : World)
        → IsValidator rune_count struct
        → validate_handler accept translate struct
            (use_json_tags (new_struct_validator uni))
            (some req)
            lang
            w
          ≡ encode accept
              (told message
                (title_problem rune_count req.title)
                (description_problem req.description))
              w
    unfolding validate_handler
    validate_handler-told rune_count struct req w law =
        rw
          (law (some json_name) (fields_of req) _
            (fields_of-errors rune_count (some json_name) req))
          (answer-told (title_problem rune_count req.title) (description_problem req.description) w)
