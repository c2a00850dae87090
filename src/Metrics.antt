-- ===== src/Metrics.antt =====
-- metrics_prometheus_grafana/main.go: the middleware that measures requests, its response writer, and
-- the handler beneath it.
pub mod Measured
pub mod Servers
use go_backend_examples.Common.{
  ℕ, ◌-◌, Bool, if◌then◌else◌, List, [], ◌∷◌, ◌++◌, Bytes, codes, eq_bytes,
}
use go_backend_examples.Strconv.{itoa}

-- A call on the http.ResponseWriter beneath.
pub data Sent : Type 0 where
  sent_header : ℕ → Sent
  sent_body : Bytes → Sent

-- StatusResponseWriter; `sent` is what has reached the embedded writer, in order.
pub record StatusResponseWriter : Type 0 where
  pub status : ℕ
  pub sent : List Sent

-- NewStatusResponseWriter.
abbrev pub new_status_response_writer : StatusResponseWriter
new_status_response_writer = record { status = 200; sent = [] }

unfoldable pub write_header : ℕ → StatusResponseWriter → StatusResponseWriter
write_header code w = record { status = code; sent = w.sent ++ (sent_header code ∷ []) }

-- Write, which is the embedded writer's.
unfoldable pub write : Bytes → StatusResponseWriter → StatusResponseWriter
write s w = record { status = w.status; sent = w.sent ++ (sent_body s ∷ []) }

abbrev pub status_string : StatusResponseWriter → Bytes
status_string w = itoa w.status

-- endpoint, status and method.
abbrev pub Labels : Type 0
Labels = Bytes × (Bytes × Bytes)

-- A call on one of the three metrics, with the nanoseconds of a request.
pub data Measure : Type 0 where
  observe_duration : Labels → ℕ → Measure
  observe_summary : ℕ → Measure
  count_request : Labels → Measure

-- The metrics, and all else.
pub record World (D : Type 0) : Type 0 where
  pub outside : D
  pub measures : List Measure

-- A handler, on what its requests have: a path and a method.
abbrev pub Handler : Type 0 → Type 0
Handler D = Bytes → Bytes → StatusResponseWriter → D → StatusResponseWriter × D

module _ {D : Type 0} (now : D → ℕ × D) where
  -- MetricsMiddleware.
  unfoldable pub metrics_middleware :
      Handler D → Bytes → Bytes → World D → StatusResponseWriter × World D
  metrics_middleware next path method w =
      let (start, d) = now w.outside in
      let (rw, d₁) = next path method new_status_response_writer d in
      let (end, d₂) = now d₁ in
      let labels : Labels = (path, (status_string rw, method)) in
      (
        rw,
        record {
          outside = d₂;
          measures =
              w.measures
              ++ (observe_duration labels (end - start)
                  ∷ observe_summary (end - start)
                  ∷ count_request labels
                  ∷ []);
        },
      )

-- http.NotFound, and the sleep of a random time.
module _ {D : Type 0} (not_found : StatusResponseWriter → StatusResponseWriter)
    (sleep : D → D) where
  unfoldable pub index : Handler D
  index path method w d =
      if eq_bytes path (codes "/") then (write (codes "hello") w, sleep d) else (not_found w, d)
