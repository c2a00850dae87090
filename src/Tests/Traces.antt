-- ===== src/Tests/Traces.antt =====
-- The log of a query of pgx-transactions, and that of an end without a start.
use go_backend_examples.Common.{ℕ, ◌+◌, String, ◌≡◌, refl, List, [], ◌∷◌, none, some, pos}
use go_backend_examples.Action.{plain}
use go_backend_examples.Pgx.Tracing.{
  Attr, duration, query_attrs, trace_query_start, trace_query_end, trace_of, timed_attrs,
}

-- A clock that advances by one at each look, and the lines.
record World : Type 0 where
  clock : ℕ
  lines : List (List Attr)

abbrev now : World → ℕ × World
now w = (w.clock, record { clock = w.clock + 1; lines = w.lines })

abbrev info : String → List Attr → World → World
info s attrs w = record { clock = w.clock; lines = attrs ∷ w.lines }

abbrev morning : World
morning = record { clock = 10; lines = [] }

-- A SELECT that fails after one tick.
traced :
    let (ctx, w) = trace_query_start now info none "SELECT 1" morning in
    (trace_query_end now info ctx "" (some (plain "timeout")) w).lines
    ≡ query_attrs now info
        (record { sql = "SELECT 1"; started_at = 10 })
        ""
        (some (plain "timeout"))
        (record { key = "duration"; value = duration (pos 1) } ∷ [])
      ∷ []
unfolding trace_query_start trace_query_end trace_of timed_attrs
traced = refl

-- Without a start there is no statement and no duration.
not_started :
    (trace_query_end now info none "SELECT 1" none morning).lines
    ≡ query_attrs now info (record { sql = ""; started_at = 0 }) "SELECT 1" none [] ∷ []
unfolding trace_query_end trace_of timed_attrs
not_started = refl
