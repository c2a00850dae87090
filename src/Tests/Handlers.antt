-- ===== src/Tests/Handlers.antt =====
-- Requests to the example custom_http_handler.
use go_backend_examples.Common.{
  ◌≡◌, refl, String, false, ◌⊎◌, Option, none, some, List, [], ◌∷◌, Bytes, codes,
}
use go_backend_examples.CustomHandler.{
  email_regex, Sent, sent_json_type, sent_header, sent_body, Payload, payload_id, payload_text,
  payload_error, World, make_http_handler, index, json_error_response, json_validate_post_request,
  write_json, write_string,
}
use go_backend_examples.Strconv.{itoa}
use go_backend_examples.Regex.{written, repeated, matches, matches-Matches, Matches-matches}
use go_backend_examples.CustomHandler.Validated.{
  IsMatcher, IsEmail, Refused, untouched, validated-IsEmail,
}

abbrev healthy : Bytes → List Sent → Option String
healthy s sent = none

abbrev broken : Bytes → List Sent → Option String
broken s sent = some "broken pipe"

abbrev short_json : Payload → Bytes
short_json (payload_id n) = codes "id"
short_json (payload_text s) = s
short_json (payload_error m) = codes "error"

matches-IsMatcher : IsMatcher matches
matches-IsMatcher ps s = (matches-Matches ps s, Matches-matches ps s)

-- The regular expression is the one of isEmailValid.
email_regex_text : written email_regex ≡ codes "^[a-z0-9._%+\\-]+@[a-z0-9.\\-]+\\.[a-z]{2,4}$"
unfolding itoa
email_regex_text = refl

long_top : matches email_regex (codes "a@b.horse") ≡ false
unfolding matches repeated
long_top = refl

abbrev answered : Bytes → World
answered email =
    make_http_handler healthy short_json matches
      (json_validate_post_request healthy short_json matches email) untouched

validated-IsEmail_example :
    (IsEmail (codes "ann@example.org")
      × (answered (codes "ann@example.org") ≡ record {
        sent = sent_header 200 ∷ sent_body (codes "validation successful") ∷ [];
        logged = [];
      }))
    ⊎ ((codes "ann@example.org" ≡ [])
        × Refused short_json (codes "this field is required") (answered (codes "ann@example.org")))
    ⊎ (¬ IsEmail (codes "ann@example.org")
        × Refused short_json (codes "invalid email") (answered (codes "ann@example.org")))
validated-IsEmail_example =
    validated-IsEmail healthy short_json matches (codes "ann@example.org") matches-IsMatcher

not_found_answer :
    (make_http_handler healthy short_json matches
      (json_error_response healthy short_json matches)
      untouched).sent
    ≡ sent_json_type ∷ sent_header 404 ∷ sent_body (codes "error") ∷ []
unfolding make_http_handler write_json
not_found_answer = refl

-- After a response that failed half-way, a second one follows it.
second_answer :
    (make_http_handler broken short_json matches (index broken short_json matches) untouched).sent
    ≡ sent_header 200
      ∷ sent_body (codes "hello from index")
      ∷ sent_json_type
      ∷ sent_header 500
      ∷ sent_body (codes "internal server error")
      ∷ []
unfolding make_http_handler write_json write_string
second_answer = refl
