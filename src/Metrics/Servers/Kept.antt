-- ===== src/Metrics/Servers/Kept.antt =====
-- The invariant of the threads of the metrics example: true at the start and kept by every step.
use go_backend_examples.Common.{inl, inr, ℕ, ◌-◌, String, ◌≡◌, ◌≢◌, [], ◌∷◌, none, subst, sym}
use mathlib.Core.List.{◌++◌}
use go_backend_examples.Metrics.Servers.{
  Which, app, metrics, closed, stopped, CloserPc, called, waiting, done, MainPc, await_signal,
  add_group, go_app, go_metrics, wait_group, returned, State, update, init, closing, shut, spawned,
  added, at_main, ended, finished, Step, serve_fails, unborn, broken, gave_up, logged, ServerPc,
  serve_exits, close_exits, wait_ends, completed, exited, served_badly, shut_badly, closed_by,
  stopped_line, server_error, shutdown_error, complete_line, serve_ends, signal, add, spawn_app,
  spawn_metrics, close, close_ends, close_fails, finish, Reach, start, later,
}
use go_backend_examples.Metrics.Servers.Phases.{
  ServerTold, CloserTold, MainTold, IsFailing, ServerTold-append, CloserTold-append,
  MainTold-append, Logged-last, update_at, ServerTold-closed_by, Phase-give_up_app,
  Phase-give_up_metrics, Phase-wait_ends, Half-give_up, broken_any, Phase, before, Half, up_unborn,
  Exits, going, failed, complete, Inv, update_both, update_left, update_right, Phase-close_app,
  Phase-close_metrics, Phase-shut_app, Phase-shut_metrics, Phase-signal, Phase-add, Phase-go_app,
  Phase-go_metrics, Phase-finish, unborn_app, unborn_metrics, Half-close, Half-shut, Half-stop,
  Half-call,
}

-- A process that goes on has not left `main`.
not_returned :
    {pc : MainPc} {f : Which → ServerPc} {g : Which → CloserPc} → Exits pc f g none → pc ≢ returned
not_returned (going h) = h

abbrev pub PhaseAt : MainPc → (Which → CloserPc) → ℕ → Type 0
PhaseAt pc f g = Phase pc (f app) (f metrics) g

module _ {s : State} (inv : Inv s) where
  -- The phase with a shutdown, or `main`, where it stands.
  at_app : {c : CloserPc} → s.closer app ≡ c → Phase s.main_pc c (s.closer metrics) s.group
  at_app e = subst (λ c. Phase s.main_pc c (s.closer metrics) s.group) e inv.phase

  at_metrics : {c : CloserPc} → s.closer metrics ≡ c → Phase s.main_pc (s.closer app) c s.group
  at_metrics e = subst (λ c. Phase s.main_pc (s.closer app) c s.group) e inv.phase

  pub at_pc : {pc : MainPc} → s.main_pc ≡ pc → PhaseAt pc s.closer s.group
  at_pc e = subst (λ pc. PhaseAt pc s.closer s.group) e inv.phase

  phase_closing :
      (x : Which) → s.closer x ≡ called → PhaseAt s.main_pc (update s.closer x waiting) s.group
  phase_closing app e = Phase-close_app (at_app e)
  phase_closing metrics e = Phase-close_metrics (at_metrics e)

  phase_give_up :
      (x : Which) → s.closer x ≡ waiting → PhaseAt s.main_pc (update s.closer x gave_up) s.group
  phase_give_up app e = Phase-give_up_app (at_app e)
  phase_give_up metrics e = Phase-give_up_metrics (at_metrics e)

  -- What the threads have told is in a log that has grown by a line.
  servers_later : (line : String) (x : Which) → ServerTold x (s.server x) (s.log ++ (line ∷ []))
  servers_later line x = ServerTold-append x (s.server x) s.log (line ∷ []) (inv.servers_told x)

  closers_later : (line : String) (x : Which) → CloserTold (s.closer x) (s.log ++ (line ∷ []))
  closers_later line x = CloserTold-append (s.closer x) s.log (line ∷ []) (inv.closers_told x)

  main_later : (line : String) → MainTold s.main_pc (s.log ++ (line ∷ []))
  main_later line = MainTold-append s.main_pc s.log (line ∷ []) inv.main_told

  server_later :
      (x : Which) (a : ServerPc) (line : String)
      → ServerTold x a (s.log ++ (line ∷ []))
      → (y : Which) → ServerTold y (update s.server x a y) (s.log ++ (line ∷ []))
  server_later x a line =
      update_at (λ y b. ServerTold y b (s.log ++ (line ∷ []))) s.server x a (servers_later line)

  closer_told :
      (x : Which) (a : CloserPc)
      → CloserTold a s.log
      → (y : Which) → CloserTold (update s.closer x a y) s.log
  closer_told x a = update_at (λ y b. CloserTold b s.log) s.closer x a inv.closers_told

  phase_shut :
      (x : Which) → s.closer x ≡ waiting → PhaseAt s.main_pc (update s.closer x done) (s.group - 1)
  phase_shut app e = Phase-shut_app (at_app e)
  phase_shut metrics e = Phase-shut_metrics (at_metrics e)

module _ {s : State} (runs : s.exit ≡ none) (inv : Inv s) where
  pub on : s.main_pc ≢ returned
  on = not_returned (subst (Exits s.main_pc s.server s.closer) runs inv.exits)

  goes_on :
      {pc : MainPc} {f : Which → ServerPc} {g : Which → CloserPc}
      → pc ≢ returned
      → Exits pc f g s.exit
  goes_on {pc} {f} {g} h = subst (Exits pc f g) (sym runs) (going h)

  -- Every step keeps the invariant.
  Half-broken : (x : Which) (y : Which) → Half (update s.server x broken y) (s.closer y)
  Half-broken x = update_left Half s.server s.closer x broken inv.halves broken_any

  Inv-served_badly : (x : Which) → Inv (served_badly x s)
  Inv-served_badly x = record {
    phase = inv.phase;
    halves = Half-broken x;
    exits = goes_on on;
    servers_told = server_later inv x broken server_error (Logged-last server_error s.log);
    closers_told = closers_later inv server_error;
    main_told = main_later inv server_error;
  }

  Inv-failed : IsFailing s.server s.closer → Inv (exited 1 s)
  Inv-failed h = record {
    phase = inv.phase;
    halves = inv.halves;
    exits = failed h;
    servers_told = inv.servers_told;
    closers_told = inv.closers_told;
    main_told = inv.main_told;
  }

  Inv-ended : (x : Which) → s.server x ≡ closed → Inv (ended x s)
  Inv-ended x e = record {
    phase = inv.phase;
    halves =
        update_left Half s.server s.closer x stopped inv.halves
          (Half-stop (subst (λ a. Half a (s.closer x)) e (inv.halves x)));
    exits = goes_on on;
    servers_told = server_later inv x stopped (stopped_line x) (Logged-last (stopped_line x) s.log);
    closers_told = closers_later inv (stopped_line x);
    main_told = main_later inv (stopped_line x);
  }

  Inv-signal : s.main_pc ≡ await_signal → Inv (at_main add_group s)
  Inv-signal e = record {
    phase = Phase-signal (at_pc inv e);
    halves = inv.halves;
    exits = goes_on cc;
    servers_told = inv.servers_told;
    closers_told = inv.closers_told;
    main_told = tt;
  }

  Inv-add : s.main_pc ≡ add_group → Inv (added s)
  Inv-add e = record {
    phase = Phase-add (at_pc inv e);
    halves = inv.halves;
    exits = goes_on cc;
    servers_told = inv.servers_told;
    closers_told = inv.closers_told;
    main_told = tt;
  }

  Half-called :
      (x : Which)
      → s.closer x ≡ unborn
      → (y : Which) → Half (s.server y) (update s.closer x called y)
  Half-called x e =
      update_right Half s.server s.closer x called inv.halves
        (Half-call (subst (Half (s.server x)) e (inv.halves x)))

  Inv-spawn_app : s.main_pc ≡ go_app → Inv (spawned app go_metrics s)
  Inv-spawn_app e = record {
    phase = Phase-go_app (at_pc inv e);
    halves = Half-called app (unborn_app (at_pc inv e));
    exits = goes_on cc;
    servers_told = inv.servers_told;
    closers_told = closer_told inv app called tt;
    main_told = tt;
  }

  Inv-spawn_metrics : s.main_pc ≡ go_metrics → Inv (spawned metrics wait_group s)
  Inv-spawn_metrics e = record {
    phase = Phase-go_metrics (at_pc inv e);
    halves = Half-called metrics (unborn_metrics (at_pc inv e));
    exits = goes_on cc;
    servers_told = inv.servers_told;
    closers_told = closer_told inv metrics called tt;
    main_told = tt;
  }

  Inv-closing : (x : Which) → s.closer x ≡ called → Inv (closing x s)
  Inv-closing x e = record {
    phase = phase_closing inv x e;
    halves =
        update_both Half s.server s.closer x (closed_by (s.server x)) waiting inv.halves
          (Half-close (subst (Half (s.server x)) e (inv.halves x)));
    exits = goes_on on;
    servers_told =
        update_at (λ y b. ServerTold y b s.log) s.server x (closed_by (s.server x)) inv.servers_told
          (ServerTold-closed_by x (s.server x) s.log (inv.servers_told x));
    closers_told = closer_told inv x waiting tt;
    main_told = inv.main_told;
  }

  Inv-shut : (x : Which) → s.closer x ≡ waiting → Inv (shut x s)
  Inv-shut x e = record {
    phase = phase_shut inv x e;
    halves =
        update_right Half s.server s.closer x done inv.halves
          (Half-shut (subst (Half (s.server x)) e (inv.halves x)));
    exits = goes_on on;
    servers_told = inv.servers_told;
    closers_told = closer_told inv x done tt;
    main_told = inv.main_told;
  }

  Inv-shut_badly : (x : Which) → s.closer x ≡ waiting → Inv (shut_badly x s)
  Inv-shut_badly x e = record {
    phase = phase_give_up inv x e;
    halves =
        update_right Half s.server s.closer x gave_up inv.halves
          (Half-give_up (subst (Half (s.server x)) e (inv.halves x)));
    exits = goes_on on;
    servers_told = servers_later inv shutdown_error;
    closers_told =
        update_at (λ y b. CloserTold b (s.log ++ (shutdown_error ∷ []))) s.closer x gave_up
          (closers_later inv shutdown_error) (Logged-last shutdown_error s.log);
    main_told = main_later inv shutdown_error;
  }

  Inv-completed : s.main_pc ≡ wait_group → s.group ≡ 0 → Inv (completed s)
  Inv-completed e empty = record {
    phase = Phase-wait_ends (at_pc inv e) empty;
    halves = inv.halves;
    exits = goes_on cc;
    servers_told = servers_later inv complete_line;
    closers_told = closers_later inv complete_line;
    main_told = Logged-last complete_line s.log;
  }

  Inv-finished : s.main_pc ≡ logged → Inv (finished s)
  Inv-finished e = record {
    phase = Phase-finish (at_pc inv e);
    halves = inv.halves;
    exits = complete;
    servers_told = inv.servers_told;
    closers_told = inv.closers_told;
    main_told = subst (λ pc. MainTold pc s.log) e inv.main_told;
  }

Step-Inv : {s t : State} → Step s t → Inv s → Inv t
Step-Inv (serve_fails x r e) inv = Inv-served_badly r inv x
Step-Inv (serve_exits x r e) inv = Inv-failed r inv (x, inl e)
Step-Inv (serve_ends x r e) inv = Inv-ended r inv x e
Step-Inv (signal r e) inv = Inv-signal r inv e
Step-Inv (add r e) inv = Inv-add r inv e
Step-Inv (spawn_app r e) inv = Inv-spawn_app r inv e
Step-Inv (spawn_metrics r e) inv = Inv-spawn_metrics r inv e
Step-Inv (close x r e) inv = Inv-closing r inv x e
Step-Inv (close_ends x r e) inv = Inv-shut r inv x e
Step-Inv (close_fails x r e) inv = Inv-shut_badly r inv x e
Step-Inv (close_exits x r e) inv = Inv-failed r inv (x, inr e)
Step-Inv (wait_ends r e empty) inv = Inv-completed r inv e empty
Step-Inv (finish r e) inv = Inv-finished r inv e

Inv-init : Inv init
Inv-init = record {
  phase = before;
  halves = λ x. up_unborn;
  exits = going cc;
  servers_told = λ x. tt;
  closers_told = λ x. tt;
  main_told = tt;
}

pub Reach-Inv : {k : ℕ} {s : State} → Reach k s → Inv s
Reach-Inv start = Inv-init
Reach-Inv (later r st) = Step-Inv st (Reach-Inv r)
