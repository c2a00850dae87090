-- ===== src/Tests/Web.antt =====
-- The response writer of logging/httpserver, and the patches of optional/handler_test.go.
use go_backend_examples.Common.{
  ℕ, String, ◌≡◌, refl, ◌==◌, if◌then◌else◌, subst, false, List, [], ◌∷◌, Option, none, some, Bytes,
  codes, length, eq_bytes,
}
use go_backend_examples.HttpLog.{Event, new_writer, write_header}
use go_backend_examples.HttpLog.Calls.{call_write_header, call_write, IsLogged, run, run-IsLogged}
use go_backend_examples.Patch.{value_optional, marshal_json, unmarshal_json}
use go_backend_examples.Patch.Fields.{IsJson, IsTextJson, unmarshal_json-marshal_json}

-- A writer that takes all bytes.
abbrev take_all : Bytes → List Event → ℕ × Option String
take_all payload sent = (length payload, none)

run-IsLogged_example :
    IsLogged (run take_all (call_write (codes "hi") ∷ call_write_header 500 ∷ []) new_writer)
run-IsLogged_example = run-IsLogged take_all (call_write (codes "hi") ∷ call_write_header 500 ∷ [])

-- A late status is ignored.
late_status :
    (run take_all (call_write (codes "hi") ∷ call_write_header 500 ∷ []) new_writer).status_code
    ≡ 200
unfolding write_header
late_status = refl

-- A string behind a quotation mark.
abbrev pub quote : Bytes → Bytes
quote s = b'"' ∷ s

abbrev pub unquote : Bytes → Option Bytes
unquote [] = none
unquote (c ∷ s) = if c == b'"' then some s else none

quote_not_null : (v : Bytes) → eq_bytes (quote v) (codes "null") ≡ false
unfolding eq_bytes
quote_not_null v = refl

quote-IsJson : IsJson (λ s. some (quote s)) unquote
quote-IsJson = record {
  decoded_back =
      λ v s e. let same : quote v ≡ s = cc e in subst (λ t. unquote t ≡ some v) same refl;
  not_null = λ v s e.
      let same : quote v ≡ s = cc e in
      subst (λ t. eq_bytes t (codes "null") ≡ false) same (quote_not_null v);
}

pub quote-IsTextJson : IsTextJson quote unquote
quote-IsTextJson = record { read_back = λ s t. refl; a_string = λ s t. quote_not_null s }

marshalled :
    marshal_json (λ s. some (quote s)) (value_optional (codes "updated bio"))
    ≡ some (quote (codes "updated bio"))
unfolding marshal_json
marshalled = refl

unmarshal_json-marshal_json_example :
    unmarshal_json unquote [] (quote (codes "updated bio"))
    ≡ some (value_optional (codes "updated bio"))
unmarshal_json-marshal_json_example =
    unmarshal_json-marshal_json (λ s. some (quote s)) unquote [] (some (codes "updated bio"))
      (quote (codes "updated bio")) quote-IsJson marshalled
