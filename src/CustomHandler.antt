-- ===== src/CustomHandler.antt =====
-- custom_http_handler: handlers that return an error, the adapter that answers it, and the routes.
pub mod Validated
use mathlib.Core.Option
use go_backend_examples.Regex.{Pattern}
use go_backend_examples.Common.{
  ℕ, Bool, true, false, not, if◌then◌else◌, String, Option, none, some, List, [], ◌∷◌, ◌++◌, Bytes,
  codes,
}

-- What reaches the http.ResponseWriter: the content type of JSON, a status, or data.
pub data Sent : Type 0 where
  sent_json_type : Sent
  sent_header : ℕ → Sent
  sent_body : Bytes → Sent

-- APIError.Message: a string, or a map of errors.
pub data Message : Type 0 where
  message_text : Bytes → Message
  message_errors : List (Bytes × Bytes) → Message

pub record ApiError : Type 0 where
  pub code : ℕ
  pub message : Message

-- The errors that a handler returns: an APIError, or one of the response.
pub data HandlerError : Type 0 where
  api_error : ApiError → HandlerError
  write_error : String → HandlerError

-- What is encoded as JSON; of an APIError, its message under the key error.
pub data Payload : Type 0 where
  payload_id : ℕ → Payload
  payload_text : Bytes → Payload
  payload_error : Message → Payload

-- The response, and the errors that were logged, both in order.
pub record World : Type 0 where
  pub sent : List Sent
  pub logged : List HandlerError

abbrev pub HttpHandlerFunc : Type 0
HttpHandlerFunc = World → Option HandlerError × World

abbrev pub send : Sent → World → World
send x w = record { sent = w.sent ++ (x ∷ []); logged = w.logged }

abbrev pub new_api_error : ℕ → Message → ApiError
new_api_error code message = record { code = code; message = message }

abbrev pub bad_request_error : List (Bytes × Bytes) → ApiError
bad_request_error errors = record { code = 400; message = message_errors errors }

abbrev pub is_empty : Bytes → Bool
is_empty [] = true
is_empty (c ∷ s) = false

-- ^[a-z0-9._%+\-]+@[a-z0-9.\-]+\.[a-z]{2,4}$
abbrev pub email_regex : Pattern
email_regex =
    record {
      ranges =
          (b'a', b'z')
          ∷ (b'0', b'9')
          ∷ (b'.', b'.')
          ∷ (b'_', b'_')
          ∷ (b'%', b'%')
          ∷ (b'+', b'+')
          ∷ (b'-', b'-')
          ∷ [];
      least = 1;
      most = none;
    }
    ∷ record { ranges = (b'@', b'@') ∷ []; least = 1; most = some 1 }
    ∷ record {
      ranges = (b'a', b'z') ∷ (b'0', b'9') ∷ (b'.', b'.') ∷ (b'-', b'-') ∷ [];
      least = 1;
      most = none;
    }
    ∷ record { ranges = (b'.', b'.') ∷ []; least = 1; most = some 1 }
    ∷ record { ranges = (b'a', b'z') ∷ []; least = 2; most = some 4 }
    ∷ []

-- The connection: the error of a Write behind what was sent. The encoder, and MatchString of a compiled
-- regular expression.
module _ (accept : Bytes → List Sent → Option String) (encode : Payload → Bytes)
    (match_string : Pattern → Bytes → Bool) where
  unfoldable pub write_string : ℕ → Bytes → HttpHandlerFunc
  write_string code s w =
      let v = send (sent_header code) w in
      (Option.map write_error (accept s v.sent), send (sent_body s) v)

  unfoldable pub write_json : ℕ → Payload → HttpHandlerFunc
  write_json code p w =
      let v = send (sent_header code) (send sent_json_type w) in
      (Option.map write_error (accept (encode p) v.sent), send (sent_body (encode p)) v)

  abbrev pub answer : Option HandlerError → World → World
  answer none w = w
  answer (some (api_error e)) w = (write_json e.code (payload_error e.message) w).1
  answer (some (write_error e)) w =
      let v = (write_json 500 (payload_text (codes "internal server error")) w).1 in
      record { sent = v.sent; logged = v.logged ++ (write_error e ∷ []) }

  -- MakeHttpHandler.
  unfoldable pub make_http_handler : HttpHandlerFunc → World → World
  unfolding write_json
  make_http_handler fn w = let (e, v) = fn w in answer e v

  abbrev pub index : HttpHandlerFunc
  index = write_string 200 (codes "hello from index")

  abbrev pub json_response : HttpHandlerFunc
  json_response = write_json 200 (payload_id 123)

  abbrev pub json_error_response : HttpHandlerFunc
  json_error_response w =
      (some (api_error (new_api_error 404 (message_text (codes "user not found")))), w)

  abbrev pub validate_format : Bytes → Bool → Option (List (Bytes × Bytes))
  validate_format email true = none
  validate_format email false = some ((codes "email", codes "invalid email") ∷ [])

  abbrev pub is_email_valid : Bytes → Bool
  is_email_valid e = match_string email_regex e

  -- request.Validate; a nil map is none.
  unfoldable pub validate : Bytes → Option (List (Bytes × Bytes))
  validate email =
      if is_empty email
      then some ((codes "email", codes "this field is required") ∷ [])
      else validate_format email (is_email_valid email)

  abbrev pub validated : Option (List (Bytes × Bytes)) → HttpHandlerFunc
  validated (some errors) w = (some (api_error (bad_request_error errors)), w)
  validated none w = (none, (write_string 200 (codes "validation successful") w).1)

  -- JSONValidatePostRequest, on the email that the decoder leaves in the request.
  unfoldable pub json_validate_post_request : Bytes → HttpHandlerFunc
  unfolding validate write_string
  json_validate_post_request email = validated (validate email)
