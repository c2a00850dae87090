-- ===== src/Tests/Measures.antt =====
-- Requests to the example metrics_prometheus_grafana.
use go_backend_examples.Common.{ℕ, ◌+◌, ◌≡◌, refl, List, [], ◌∷◌, codes, eq_bytes}
use go_backend_examples.Strconv.{itoa}
use go_backend_examples.Metrics.{
  StatusResponseWriter, new_status_response_writer, write_header, write, Labels, World, index,
}
use go_backend_examples.Metrics.Measured.{client_status, Request, answered}

-- http.NotFound.
abbrev not_found : StatusResponseWriter → StatusResponseWriter
not_found w = write (codes "404 page not found\n") (write_header 404 w)

abbrev tick : ℕ → ℕ × ℕ
tick n = (n, n + 1)

abbrev requests : List Request
requests =
    record { path = codes "/"; method = codes "GET" }
    ∷ record { path = codes "/x"; method = codes "GET" }
    ∷ record { path = codes "/"; method = codes "GET" }
    ∷ []

abbrev ok_labels : Labels
ok_labels = (codes "/", (codes "200", codes "GET"))

abbrev empty : World ℕ
empty = record { outside = 0; measures = [] }

two_answered : answered tick (index not_found (λ d. d)) ok_labels requests 0 ≡ 2
unfolding index write write_header eq_bytes itoa
two_answered = refl

-- A second header is recorded, though the client has got the first.
second_header :
    ((write_header 500 (write_header 201 new_status_response_writer)).status ≡ 500)
    × (client_status (write_header 500 (write_header 201 new_status_response_writer)).sent ≡ 201)
unfolding write_header
second_header = (refl, refl)

-- An informational header before a body is recorded, though the client gets 200.
early_hints :
    ((write (codes "x") (write_header 103 new_status_response_writer)).status ≡ 103)
    × (client_status (write (codes "x") (write_header 103 new_status_response_writer)).sent ≡ 200)
unfolding write_header write
early_hints = (refl, refl)
