-- ===== src/Metrics/Measured.antt =====
-- What the metrics say of the requests that were served.
use go_backend_examples.Common.{
  ◌≤◌, leb, ltb, ◌==◌, if◌then◌else◌, not, ℕ, suc, ◌+◌, ◌≡◌, Bool, true, false, Bool-cases, inl,
  inr, ◌&&◌, List, [], ◌∷◌, Bytes, codes, eq_bytes, arith,
}
use go_backend_examples.Strconv.{itoa}
use go_backend_examples.Metrics.{
  Sent, sent_header, sent_body, StatusResponseWriter, new_status_response_writer, write_header,
  write, Labels, Measure, observe_duration, observe_summary, count_request, World, Handler,
  metrics_middleware, index,
}

-- The informational statuses: those of 100 to 199 but 101, which ends the headers.
abbrev pub is_informational : ℕ → Bool
is_informational code = leb 100 code && (ltb code 200 && not (code == 101))

-- The status that the client gets: the first header that is not informational, or 200 where a body, or
-- the end, comes before one.
abbrev pub client_status : List Sent → ℕ
client_status [] = 200
client_status (sent_header code ∷ rest) =
    let later = client_status rest in if is_informational code then later else code
client_status (sent_body s ∷ rest) = 200

abbrev pub write_all : List Bytes → StatusResponseWriter → StatusResponseWriter
write_all [] w = w
write_all (s ∷ ss) w = write_all ss (write s w)

-- Handlers that send at most one header, of a status from 200 on, and that before any body.
pub data IsProper {D : Type 0} (handler : Handler D) (path method : Bytes) (d : D) : Type 0 where
  with_status :
      (code : ℕ) (bodies : List Bytes)
      → 200 ≤ code
      → (handler path method new_status_response_writer d).0
        ≡ write_all bodies (write_header code new_status_response_writer)
      → IsProper handler path method d
  without_status :
      (bodies : List Bytes)
      → (handler path method new_status_response_writer d).0
        ≡ write_all bodies new_status_response_writer
      → IsProper handler path method d

abbrev pub eq_labels : Labels → Labels → Bool
eq_labels (p, (s, m)) (q, (t, n)) = eq_bytes p q && (eq_bytes s t && eq_bytes m n)

abbrev pub hit : Bool → ℕ
hit true = 1
hit false = 0

-- The number of requests that the counter, and that the histogram, has under some labels.
abbrev pub counter : Labels → List Measure → ℕ
counter l [] = 0
counter l (count_request k ∷ ms) = hit (eq_labels k l) + counter l ms
counter l (observe_duration k t ∷ ms) = counter l ms
counter l (observe_summary t ∷ ms) = counter l ms

abbrev pub histogram : Labels → List Measure → ℕ
histogram l [] = 0
histogram l (observe_duration k t ∷ ms) = hit (eq_labels k l) + histogram l ms
histogram l (count_request k ∷ ms) = histogram l ms
histogram l (observe_summary t ∷ ms) = histogram l ms

abbrev pub summaries : List Measure → ℕ
summaries [] = 0
summaries (observe_summary t ∷ ms) = suc (summaries ms)
summaries (observe_duration k t ∷ ms) = summaries ms
summaries (count_request k ∷ ms) = summaries ms

pub record Request : Type 0 where
  pub path : Bytes
  pub method : Bytes

module _ {D : Type 0} (now : D → ℕ × D) (handler : Handler D) where
  -- Requests that are served one after the other.
  pub serve_all : List Request → World D → World D
  serve_all [] w = w
  serve_all (r ∷ rs) w = serve_all rs (metrics_middleware now handler r.path r.method w).1

  -- How many of the requests are answered under the labels: the path, the status that the client gets
  -- and the method.
  abbrev pub answered : Labels → List Request → D → ℕ
  answered l [] d = 0
  answered l (r ∷ rs) d =
      let (rw, d₁) = handler r.path r.method new_status_response_writer (now d).1 in
      hit (eq_labels (r.path, (itoa (client_status rw.sent), r.method)) l)
      + answered l rs (now d₁).1

-- The handler of the example sends one header at most, if http.NotFound sends 404 and a text.
pub index-IsProper :
    {D : Type 0} (not_found : StatusResponseWriter → StatusResponseWriter) (sleep : D → D)
    (page : Bytes)
    → ((w : StatusResponseWriter) → not_found w ≡ write page (write_header 404 w))
    → (path method : Bytes) (d : D) → IsProper (index not_found sleep) path method d
unfolding index
index-IsProper not_found sleep page law path method d =
    elim (Bool-cases (eq_bytes path (codes "/"))) [
      | inl e ↦ without_status (codes "hello" ∷ []) (rw e)
      | inr e ↦ with_status 404 (page ∷ []) (omega arith) (rw e (law new_status_response_writer))
    ]
