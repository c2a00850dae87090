-- ===== src/Lib.antt =====
-- A verification library for the Go examples of this repository.
--
-- The program is a set of independent examples, all of which are modelled.
--
-- The RESP3 codec, written twice: enums/sealed_interface/resp3.go and enums/tagged_union/resp3.go.
-- Resp3.Sealed and Resp3.Tagged hold one function for each function of the two files (`serialize`,
-- `parse`, `parse_value`, and so on); Resp3.Reader has the parser's state (input and position) and
-- the operations on it that both files write alike, and Resp3.Double formatDouble and parseDouble.
-- A parser's step returns a value, a Go error, or a panic (Resp3.Outcome). Resp3.Embed takes a
-- value of the sealed interface to the one that the constructors of the tagged union build. The
-- proofs stand in Resp3.RoundTrip, Resp3.Total, Resp3.Agree, Resp3.Codec, and, on an input that is
-- still growing, in Resp3.Streaming and Resp3.Cut; Strconv has the parts of strconv that the codec
-- calls.
--   Bytes are numbers below 256, integers are ℤ with the bounds of int64 written out, and an int
-- that overflows wraps as in the source. A float64 is its bit pattern, and strconv.FormatFloat
-- and strconv.ParseFloat are a parameter, `FloatText`, whose law `IsFloatText` says that
-- formatting with precision -1 is read back and writes no line break. `Limits` are the greatest
-- counts that `make` accepts. The recursion of parseValue has fuel, one more than the length of
-- the input, which is enough since every call reads at least a byte. Memory and the depth of the
-- stack are not modelled.
--
-- Transactions: pgx-transactions. Action has errors and calls that change the world, Pgx.Retry
-- the retry loop of postgres/retry.go, Pgx.Tx the context executor, Pgx.Tx.Manager and Pgx.Tx.Work
-- the transaction manager and the unit of work, Pgx.Users the repositories and the services that
-- create a user with a profile, Pgx.Reads their reads, Pgx.Tracing the tracer that logs queries, and
-- Pgx.Orders the use case of an order and the checkout around it. The services run inside of
-- Pgx.Tx.Manager.do_tx or Pgx.Tx.Work.do_work, and these inside of the retry loop. Pgx.Example is
-- main.go, which starts a container, connects, migrates, and runs the services one after the other;
-- its deferred calls are `deferred` of Action. A panic is not modelled there.
--   The world is a type `W` that every call passes on. pgx and uuid are a parameter, `Driver`; the
-- record `IsTransactional` says what is relied on: a statement on a transaction changes what the
-- transaction sees and not what is committed, BeginTxFunc commits what the transaction saw if the
-- body succeeds, and an error leaves the committed state. One client is modelled: what other
-- clients commit between two attempts is not, nor a commit whose answer is lost. The rounds of
-- the retry loop are counted down from the number of attempts, so the loop needs no fuel. Reads
-- are of a further parameter, `Queries`, and `IsReadable` says that a SELECT by the primary key returns
-- the row of the state that it sees, while the database answers.
--
-- Functional options: functional_options_pattern. Options has the options and NewServer, and
-- Options.Built what they build.
--
-- Logging: logging. Log.Bag is the canonical bag (canonicallog/bag.go), Log.Multiline both slog
-- handlers (slogctx, xctx), Log.Tracer both query tracers (postgres/tracer.go), Log.Database
-- the connection and the migration (postgres/db.go), HttpLog the response
-- writer of httpserver/middleware.go, Log.Users the way of a request that creates a user from the
-- handler (userhandler) over the canonical decorator and the service (userservice) to the repository
-- (userrepo) and the tracers around its queries, as main_test.go puts them together, and Log.Served
-- both middlewares around it (`serve`, `serve_logged`). Log.Value has the values that slog carries.
--   Log.World is the world of a request: all that is outside, on which the clock, uuid, the writer of
-- the log and the database are parameters (`Env`), the bag of the context, and the response writer.
-- A struct with a method LogValue carries its fields beside what the method returns, so that a log
-- which shows the fields is told apart from one that does not; Log.Bag.Public and
-- Log.Users.Rules compare two runs by what is shown. That a database's answer, error texts
-- included, does not repeat a password is a hypothesis there. A map is an association list
-- (Common.Dict). A bag's calls take its lock, so that Log.Bag has each as one function; Log.Bag.Locked
-- has two goroutines that share a bag as the steps lock, read, write and unlock of their calls (Set
-- reads its field there and leaves it unused). strings.TrimSpace is that of ASCII. Response headers are left out.
--
-- Metrics: metrics_prometheus_grafana/main.go. Metrics has the middleware with its response writer,
-- which records the calls on the metrics, and the handler beneath; Metrics.Measured counts them.
-- Metrics.Servers has `main` with both servers as five threads: a step relation (`Step`) whose steps are
-- those of the goroutines, the signal, an error of a listener, and the end of a Shutdown, which the
-- timeout of its context bounds; a line of the log and the end of the process are two steps. Metrics.Servers.Kept has the invariant and Metrics.Servers.Graceful
-- what follows. A signal before `main` awaits it, and connections, are not modelled.
--
-- Handlers that return errors: custom_http_handler. CustomHandler has the adapter MakeHttpHandler, both
-- writers of responses and the handlers; the connection, the encoder, what the decoder leaves in the
-- request, and MatchString are parameters. Regex has the syntax of regular expressions that the
-- pattern of isEmailValid (`email_regex`) uses, and what they match; CustomHandler.Validated has the
-- language of that pattern and what POST /validate answers.
--
-- Optional values: optional. Patch has the type Optional, its JSON, and the path of a PATCH request
-- from the handler through the service to the repository, Patch.Store the repository with the scan of a
-- row and the path of a GET, and Patch.Program main.go with its migration, its seed and the routes;
-- encoding/json, pgx, the container and the server are parameters; Patch.Text has the texts that JSON
-- and a column of type TEXT hold as they are. Patch.Fields and Patch.Kept have
-- what a client can rely on, and Patch.Serves on which database the program serves.
--
-- Struct validation: validate_structs. Validation has ValidateStruct, UseJsonTags and the handler;
-- go-playground's validator and translator, the decoder and the connection are parameters.
-- A struct is the list of its fields with their tags (`fields_of`). Validation.Answers has the rules of the
-- tags as the validator documents them, and what a client is answered.
--
-- CI: github_ci_cd. Transform has TransformString on a parameter for SHA-256.
--
-- Not modelled are the main function of the functional options, which prints, the constructors that
-- only store their arguments, and the settings of the HTTP servers.
--
-- Tests has runs on concrete inputs.
pub mod Common
pub mod Strconv
pub mod Regex
pub mod Resp3
pub mod Action
pub mod Pgx
pub mod Log
pub mod Metrics
pub mod CustomHandler
pub mod Options
pub mod HttpLog
pub mod Patch
pub mod Validation
pub mod Transform
mod Tests
