-- ===== src/HttpLog.antt =====
-- logging/httpserver/middleware.go: the response writer that remembers what the log reports.
pub mod Calls
use go_backend_examples.Common.{
  ℕ, ◌+◌, String, Bool, true, false, if◌then◌else◌, List, [], ◌∷◌, Option, none, some, Bytes,
}

-- What reaches the http.ResponseWriter beneath: a header, or data with the number of bytes that it
-- has taken.
pub data Event : Type 0 where
  header : ℕ → Event
  body : Bytes → ℕ → Event

-- statusResponseWriter. `sent` is what has reached the writer beneath, the latest first; `bytes` is
-- unbounded, since no response has 2 ^ 63 bytes.
pub record StatusResponseWriter : Type 0 where
  pub status_code : ℕ
  pub bytes : ℕ
  pub wrote_header : Bool
  pub sent : List Event

-- &statusResponseWriter{ResponseWriter: w, statusCode: http.StatusOK}
abbrev pub new_writer : StatusResponseWriter
new_writer = record { status_code = 200; bytes = 0; wrote_header = false; sent = [] }

unfoldable pub write_header : ℕ → StatusResponseWriter → StatusResponseWriter
write_header code w = if w.wrote_header then w else (record {
  status_code = code;
  bytes = w.bytes;
  wrote_header = true;
  sent = header code ∷ w.sent;
})

-- `accept` is what the Write beneath returns.
module _ (accept : Bytes → List Event → ℕ × Option String) where
  abbrev pub record_write : Bytes → ℕ → StatusResponseWriter → StatusResponseWriter
  record_write payload n w = record {
    status_code = w.status_code;
    bytes = w.bytes + n;
    wrote_header = w.wrote_header;
    sent = body payload n ∷ w.sent;
  }

  abbrev pub wrap_write : Option String → Option (String × String)
  wrap_write none = none
  wrap_write (some e) = some ("write response", e)

  abbrev pub with_header : StatusResponseWriter → StatusResponseWriter
  with_header w = if w.wrote_header then w else write_header 200 w

  abbrev pub write :
      Bytes → StatusResponseWriter → (ℕ × Option (String × String)) × StatusResponseWriter
  write payload w =
      let w₁ = with_header w in
      let (n, e) = accept payload w₁.sent in ((n, wrap_write e), record_write payload n w₁)
