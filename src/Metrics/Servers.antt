-- ===== src/Metrics/Servers.antt =====
-- The two servers of metrics_prometheus_grafana/main.go, and their shutdown: `appServer`,
-- `metricsServer` and `main`, as the steps of five threads.
pub mod Phases
pub mod Kept
pub mod Graceful
use mathlib.Core.List.{◌++◌}
use go_backend_examples.Common.{ℕ, ◌+◌, ◌-◌, String, ◌≡◌, ◌⊎◌, List, [], ◌∷◌, Option, none, some}

pub data Which : Type 0 where
  app metrics : Which

-- Where the goroutine of ListenAndServe stands: it serves, or the server has been closed and the call
-- returns http.ErrServerClosed, or it has logged that and ended, or it is in log.Fatalf for another
-- error, behind the line and before os.Exit.
pub data ServerPc : Type 0 where
  serving closed stopped broken : ServerPc

-- Where the goroutine that shuts a server down stands: not started, before its call of Shutdown, in
-- it, behind it and behind wg.Done, or in log.Fatalf, behind the line and before os.Exit.
pub data CloserPc : Type 0 where
  unborn called waiting done gave_up : CloserPc

-- Where `main` stands: behind the start of the servers, the signal, wg.Add, the two go statements,
-- wg.Wait with the last log.Println, and its return.
pub data MainPc : Type 0 where
  await_signal add_group go_app go_metrics wait_group logged returned : MainPc

-- `exit` is the status of the process that has ended.
pub record State : Type 0 where
  pub main_pc : MainPc
  pub server : Which → ServerPc
  pub closer : Which → CloserPc
  pub group : ℕ
  pub log : List String
  pub exit : Option ℕ

abbrev pub update {ℓ} : {A : Type ℓ} → (Which → A) → Which → A → Which → A
update f app a app = a
update f app a metrics = f metrics
update f metrics a app = f app
update f metrics a metrics = a

abbrev pub init : State
init = record {
  main_pc = await_signal;
  server = λ x. serving;
  closer = λ x. unborn;
  group = 0;
  log = [];
  exit = none;
}

abbrev pub stopped_line : Which → String
stopped_line app = "Stopped app server"
stopped_line metrics = "Stopped metrics server"

abbrev pub complete_line : String
complete_line = "Graceful shutdown complete"

-- The lines of log.Fatalf. The text of the error is left off.
abbrev pub server_error : String
server_error = "HTTP server error"

abbrev pub shutdown_error : String
shutdown_error = "HTTP shutdown error"

-- os.Exit: the end of the process, no deferred call being run.
abbrev pub exited : ℕ → State → State
exited n st = record {
  main_pc = st.main_pc;
  server = st.server;
  closer = st.closer;
  group = st.group;
  log = st.log;
  exit = some n;
}

abbrev pub at_main : MainPc → State → State
at_main pc st = record {
  main_pc = pc;
  server = st.server;
  closer = st.closer;
  group = st.group;
  log = st.log;
  exit = st.exit;
}

-- wg.Add(2).
abbrev pub added : State → State
added st = record {
  main_pc = go_app;
  server = st.server;
  closer = st.closer;
  group = st.group + 2;
  log = st.log;
  exit = st.exit;
}

-- A go statement of `main`, behind which it goes on at `pc`.
abbrev pub spawned : Which → MainPc → State → State
spawned x pc st = record {
  main_pc = pc;
  server = st.server;
  closer = update st.closer x called;
  group = st.group;
  log = st.log;
  exit = st.exit;
}

-- Shutdown closes the listeners at once, and then waits for the connections. A goroutine that is in
-- log.Fatalf does not see it.
abbrev pub closed_by : ServerPc → ServerPc
closed_by serving = closed
closed_by pc = pc

abbrev pub closing : Which → State → State
closing x st = record {
  main_pc = st.main_pc;
  server = update st.server x (closed_by (st.server x));
  closer = update st.closer x waiting;
  group = st.group;
  log = st.log;
  exit = st.exit;
}

-- Shutdown has returned nil, and the deferred wg.Done has run.
abbrev pub shut : Which → State → State
shut x st = record {
  main_pc = st.main_pc;
  server = st.server;
  closer = update st.closer x done;
  group = st.group - 1;
  log = st.log;
  exit = st.exit;
}

abbrev pub ended : Which → State → State
ended x st = record {
  main_pc = st.main_pc;
  server = update st.server x stopped;
  closer = st.closer;
  group = st.group;
  log = st.log ++ (stopped_line x ∷ []);
  exit = st.exit;
}

-- log.Fatalf of the two kinds of goroutine, as far as its line.
abbrev pub served_badly : Which → State → State
served_badly x st = record {
  main_pc = st.main_pc;
  server = update st.server x broken;
  closer = st.closer;
  group = st.group;
  log = st.log ++ (server_error ∷ []);
  exit = st.exit;
}

abbrev pub shut_badly : Which → State → State
shut_badly x st = record {
  main_pc = st.main_pc;
  server = st.server;
  closer = update st.closer x gave_up;
  group = st.group;
  log = st.log ++ (shutdown_error ∷ []);
  exit = st.exit;
}

-- wg.Wait has returned, and `main` logs its last line. Then it returns, which ends the process: the
-- deferred call that releases the context touches nothing of the state.
abbrev pub completed : State → State
completed st = record {
  main_pc = logged;
  server = st.server;
  closer = st.closer;
  group = st.group;
  log = st.log ++ (complete_line ∷ []);
  exit = st.exit;
}

abbrev pub finished : State → State
finished st = exited 0 (at_main returned st)

-- A step of a thread, or of what is outside: a signal, an error of a listener, the end of a Shutdown.
pub data Step : State → State → Type 0 where
  serve_fails :
      {s : State} (x : Which)
      → s.exit ≡ none
      → (s.server x ≡ serving) ⊎ (s.server x ≡ closed)
      → Step s (served_badly x s)
  serve_exits : {s : State} (x : Which) → s.exit ≡ none → s.server x ≡ broken → Step s (exited 1 s)
  serve_ends : {s : State} (x : Which) → s.exit ≡ none → s.server x ≡ closed → Step s (ended x s)
  signal : {s : State} → s.exit ≡ none → s.main_pc ≡ await_signal → Step s (at_main add_group s)
  add : {s : State} → s.exit ≡ none → s.main_pc ≡ add_group → Step s (added s)
  spawn_app : {s : State} → s.exit ≡ none → s.main_pc ≡ go_app → Step s (spawned app go_metrics s)
  spawn_metrics :
      {s : State} → s.exit ≡ none → s.main_pc ≡ go_metrics → Step s (spawned metrics wait_group s)
  close : {s : State} (x : Which) → s.exit ≡ none → s.closer x ≡ called → Step s (closing x s)
  close_ends : {s : State} (x : Which) → s.exit ≡ none → s.closer x ≡ waiting → Step s (shut x s)
  close_fails :
      {s : State} (x : Which) → s.exit ≡ none → s.closer x ≡ waiting → Step s (shut_badly x s)
  close_exits : {s : State} (x : Which) → s.exit ≡ none → s.closer x ≡ gave_up → Step s (exited 1 s)
  wait_ends :
      {s : State} → s.exit ≡ none → s.main_pc ≡ wait_group → s.group ≡ 0 → Step s (completed s)
  finish : {s : State} → s.exit ≡ none → s.main_pc ≡ logged → Step s (finished s)

-- `Reach k s`: `k` steps lead from the start to `s`.
pub data Reach : ℕ → State → Type 0 where
  start : Reach 0 init
  later : {k : ℕ} {s t : State} → Reach k s → Step s t → Reach (k + 1) t
