-- ===== src/HttpLog/Calls.antt =====
-- Any sequence of calls of a handler on the response writer.
use go_backend_examples.Common.{
  ℕ, ◌+◌, String, ◌≡◌, refl, ap, ◌∙◌, sym, subst, true, false, if◌then◌else◌, List, [], ◌∷◌, Option,
  Bytes, inl, inr, ◌⊎◌,
}
use go_backend_examples.HttpLog.{
  Event, header, body, StatusResponseWriter, new_writer, write_header, write, with_header,
  record_write,
}

pub data Call : Type 0 where
  call_write_header : ℕ → Call
  call_write : Bytes → Call

-- The headers that have reached the writer beneath, and the bytes that it has taken.
abbrev pub headers : List Event → List ℕ
headers [] = []
headers (header code ∷ es) = code ∷ headers es
headers (body payload n ∷ es) = headers es

abbrev pub taken : List Event → ℕ
taken [] = 0
taken (header code ∷ es) = taken es
taken (body payload n ∷ es) = taken es + n

-- The earliest event is a header.
abbrev pub IsHeaderFirst : List Event → Type 0
IsHeaderFirst [] = ⊥
IsHeaderFirst (header code ∷ []) = Unit
IsHeaderFirst (body payload n ∷ []) = ⊥
IsHeaderFirst (e ∷ (f ∷ es)) = IsHeaderFirst (f ∷ es)

-- Nothing was sent and the log will report 200, or one header was sent, before all else, which the
-- log will report; and the log will report the bytes that were taken.
abbrev pub IsLogged : StatusResponseWriter → Type 0
IsLogged w =
    ((w.wrote_header ≡ false) × (w.status_code ≡ 200) × (w.sent ≡ []) × (w.bytes ≡ 0))
    ⊎ ((w.wrote_header ≡ true)
        × (headers w.sent ≡ w.status_code ∷ [])
        × IsHeaderFirst w.sent
        × (w.bytes ≡ taken w.sent))

abbrev headed : ℕ → StatusResponseWriter → StatusResponseWriter
headed code w = record {
  status_code = code;
  bytes = w.bytes;
  wrote_header = true;
  sent = header code ∷ w.sent;
}

body-IsHeaderFirst :
    (payload : Bytes) (n : ℕ) (es : List Event)
    → IsHeaderFirst es
    → IsHeaderFirst (body payload n ∷ es)
body-IsHeaderFirst payload n [] h = elim h [ ]
body-IsHeaderFirst payload n (e ∷ es) h = h

module _ (accept : Bytes → List Event → ℕ × Option String) where
  abbrev pub run_call : Call → StatusResponseWriter → StatusResponseWriter
  run_call (call_write_header code) w = write_header code w
  run_call (call_write payload) w = (write accept payload w).1

  abbrev pub run : List Call → StatusResponseWriter → StatusResponseWriter
  run [] w = w
  run (c ∷ cs) w = run cs (run_call c w)

  write_header-IsLogged :
      (code : ℕ) (w : StatusResponseWriter) → IsLogged w → IsLogged (write_header code w)
  unfolding write_header
  write_header-IsLogged code w (inl (fresh, first, none_sent, zero_bytes)) =
      subst (λ b. IsLogged (if b then w else headed code w)) (sym fresh)
        (inr (
          refl,
          ap (λ es. code ∷ headers es) none_sent,
          subst (λ es. IsHeaderFirst (header code ∷ es)) (sym none_sent) tt,
          zero_bytes ∙ sym (ap taken none_sent),
        ))
  write_header-IsLogged code w (inr h) =
      subst (λ b. IsLogged (if b then w else headed code w)) (sym h.0) (inr h)

  wrote_header-write_header :
      (code : ℕ) (w : StatusResponseWriter)
      → w.wrote_header ≡ false
      → (write_header code w).wrote_header ≡ true
  unfolding write_header
  wrote_header-write_header code w fresh =
      subst (λ b. (if b then w else headed code w).wrote_header ≡ true) (sym fresh) refl

  with_header-IsLogged :
      (w : StatusResponseWriter)
      → IsLogged w
      → IsLogged (with_header accept w) × ((with_header accept w).wrote_header ≡ true)
  with_header-IsLogged w (inl h) =
      subst
        (λ b.
          IsLogged (if b then w else write_header 200 w)
          × ((if b then w else write_header 200 w).wrote_header ≡ true))
        (sym h.0) (write_header-IsLogged 200 w (inl h), wrote_header-write_header 200 w h.0)
  with_header-IsLogged w (inr h) =
      subst
        (λ b.
          IsLogged (if b then w else write_header 200 w)
          × ((if b then w else write_header 200 w).wrote_header ≡ true))
        (sym h.0) (inr h, h.0)

  record_write-IsLogged :
      (payload : Bytes) (n : ℕ) (w : StatusResponseWriter)
      → IsLogged w
      → w.wrote_header ≡ true
      → IsLogged (record_write accept payload n w)
  record_write-IsLogged payload n w (inl h) wrote = cc (h.0, wrote)
  record_write-IsLogged payload n w (inr (h, one, front, count)) wrote =
      inr (h, one, body-IsHeaderFirst payload n w.sent front, ap (λ b. b + n) count)

  run_call-IsLogged : (c : Call) (w : StatusResponseWriter) → IsLogged w → IsLogged (run_call c w)
  run_call-IsLogged (call_write_header code) w h = write_header-IsLogged code w h
  run_call-IsLogged (call_write payload) w h =
      let (logged, wrote) = with_header-IsLogged w h in
      record_write-IsLogged payload _ (with_header accept w) logged wrote

  run_from : (cs : List Call) (w : StatusResponseWriter) → IsLogged w → IsLogged (run cs w)
  run_from [] w h = h
  run_from (c ∷ cs) w h = run_from cs (run_call c w) (run_call-IsLogged c w h)

  -- After any calls of WriteHeader and Write, with any statuses and data and whatever the writer
  -- beneath answers, either nothing was sent, the status to be logged is 200 and the bytes are 0, or
  -- exactly one header has reached the writer beneath, before any data, the status to be logged is
  -- that header's, and the bytes to be logged are those that the writer beneath has taken.
  pub run-IsLogged : (cs : List Call) → IsLogged (run cs new_writer)
  run-IsLogged cs = run_from cs new_writer (inl (refl, refl, refl, refl))
