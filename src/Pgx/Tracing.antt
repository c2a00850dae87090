-- ===== src/Pgx/Tracing.antt =====
-- LoggingQueryTracer of pgx-transactions/postgres/tracer.go.
use go_backend_examples.Common.{
  ℕ, ◌-◌, String, List, [], ◌∷◌, Option, none, some, ℤ, pos, ◌==◌, if◌then◌else◌,
}
use go_backend_examples.Action.{GoError}

-- What a query leaves in its context; a time is a number of nanoseconds, and the zero time is 0.
pub record QueryTrace : Type 0 where
  pub sql : String
  pub started_at : ℕ

pub data Field : Type 0 where
  text : String → Field
  error : Option GoError → Field
  duration : ℤ → Field

pub record Attr : Type 0 where
  pub key : String
  pub value : Field

-- `now` is the clock, and `info` the method InfoContext of the logger.
module _ {W : Type 0} (now : W → ℕ × W) (info : String → List Attr → W → W) where
  -- The context carries a trace or none.
  unfoldable pub trace_query_start : Option QueryTrace → String → W → Option QueryTrace × W
  trace_query_start ctx sql w =
      let (t, w') = now w in (some (record { sql = sql; started_at = t }), w')

  -- `trace, _ := ctx.Value(…).(queryTrace)`: the zero value if there is none.
  unfoldable pub trace_of : Option QueryTrace → QueryTrace
  trace_of none = record { sql = ""; started_at = 0 }
  trace_of (some trace) = trace

  abbrev pub query_attrs : QueryTrace → String → Option GoError → List Attr → List Attr
  query_attrs trace tag e more =
      record { key = "sql"; value = text trace.sql }
      ∷ record { key = "command_tag"; value = text tag }
      ∷ record { key = "err"; value = error e }
      ∷ more

  -- The attributes from the time on, which is read only for a trace that has a start.
  unfoldable pub timed_attrs : QueryTrace → W → List Attr × W
  timed_attrs trace w =
      if trace.started_at == 0
      then ([], w)
      else (let (t, w') = now w in
          (record { key = "duration"; value = duration (pos (t - trace.started_at)) } ∷ [], w'))

  unfoldable pub trace_query_end : Option QueryTrace → String → Option GoError → W → W
  unfolding trace_of timed_attrs
  trace_query_end ctx tag e w =
      let (more, w') = timed_attrs (trace_of ctx) w in
      info "postgres query" (query_attrs (trace_of ctx) tag e more) w'
