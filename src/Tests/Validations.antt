-- ===== src/Tests/Validations.antt =====
-- Requests to the example validate_structs, with two languages.
use go_backend_examples.Common.{
  ◌≡◌, refl, ap, List, String, true, false, if◌then◌else◌, Option, none, some, [], ◌++◌, Bytes,
  codes, eq_bytes, length,
}
use go_backend_examples.Validation.{
  StructField, PostRequest, FieldError, Checked, valid, TagNameFunc, Uni, Event, World,
  before_comma, json_name, new_struct_validator, use_json_tags, encode, validate_handler,
}
use go_backend_examples.Validation.Answers.{
  title_problem, description_problem, errors_of, checked_of, told, message, validate_handler-told,
}

-- A translator is the language's word for a failure.
abbrev uni : Uni Bytes
uni = record {
  get_translator =
      λ locale. if eq_bytes locale (codes "en") then (codes " fails ", true) else (codes "", false);
  fallback = codes " fails ";
}

abbrev translate : Bytes → FieldError → Bytes
translate word fe = fe.field ++ (word ++ fe.tag)

abbrev checked : Option (List FieldError) → Checked
checked none = valid
checked (some fes) = checked_of fes

abbrev struct : Option TagNameFunc → List (StructField × Bytes) → Checked
struct names fields = checked (errors_of length names fields)

abbrev accept : Event → World → Option String
accept e w = none

abbrev untitled : PostRequest
untitled = record { title = []; description = codes "text" }

cut_at_comma : before_comma (codes "title,omitempty") ≡ codes "title"
unfolding before_comma
cut_at_comma = refl

hidden_name : json_name (codes "-") ≡ []
unfolding json_name before_comma eq_bytes
hidden_name = refl

validate_handler-told_example :
    validate_handler accept translate struct
      (use_json_tags (new_struct_validator uni))
      (some untitled)
      (codes "de")
      []
    ≡ encode accept
        (told
          (message uni translate (codes "de"))
          (title_problem length untitled.title)
          (description_problem untitled.description))
        []
validate_handler-told_example =
    validate_handler-told uni translate (codes "de") accept length struct untitled []
      (λ names fields fes e. ap checked e)
