-- ===== src/Metrics/Servers/Graceful.antt =====
-- How the metrics example is shut down: that it ends, and what its status 0 tells.
use go_backend_examples.Common.{
  ℕ, ◌+◌, ◌<◌, ◌≤◌, ◌≡◌, ◌≢◌, refl, ap, inl, inr, ◌⊎◌, Option, none, some, subst, arith,
}
use go_backend_examples.Metrics.Servers.{
  Which, app, metrics, ServerPc, serving, closed, stopped, CloserPc, unborn, called, waiting, done,
  MainPc, await_signal, add_group, go_app, go_metrics, wait_group, returned, State, update,
  complete_line, closing, shut, spawned, added, at_main, finished, Step, serve_fails, serve_exits,
  close_exits, wait_ends, completed, exited, broken, gave_up, logged, server_error, shutdown_error,
  closed_by, serve_ends, signal, add, spawn_app, spawn_metrics, close, close_ends, close_fails,
  finish, Reach, start, later,
}
use go_backend_examples.Metrics.Servers.Phases.{
  ServerTold, CloserTold, MainTold, Logged, IsFailing, failed, going, complete, Phase, Half, Exits,
  going, failed, complete, Inv, unborn_app, unborn_metrics, Phase-wait, is_over, Half-done,
}
use go_backend_examples.Metrics.Servers.Kept.{on, at_pc, Reach-Inv}

both_done : (f : Which → CloserPc) → f app ≡ done → f metrics ≡ done → (x : Which) → f x ≡ done
both_done f h k app = h
both_done f h k metrics = k

-- A process whose shutdown is complete, and one that has failed.
abbrev pub IsComplete : State → Type 0
IsComplete s =
    ((x : Which) → (s.closer x ≡ done) × (s.server x ≢ serving)) × Logged complete_line s.log

abbrev pub IsFailed : State → Type 0
IsFailed s =
    (x : Which) × (((s.server x ≡ broken) × Logged server_error s.log)
      ⊎ ((s.closer x ≡ gave_up) × Logged shutdown_error s.log))

returned-IsComplete : {s : State} → Inv s → s.main_pc ≡ returned → IsComplete s
returned-IsComplete {s} inv back =
    let (first, second) = is_over (at_pc inv back) in
    (
      (λ x.
          let shut = both_done s.closer first second x in
          (shut, Half-done (subst (Half (s.server x)) shut (inv.halves x)))),
      subst (λ pc. MainTold pc s.log) back inv.main_told,
    )

failing-IsFailed : {s : State} → Inv s → IsFailing s.server s.closer → IsFailed s
failing-IsFailed {s} inv (x, inl e) =
    (x, inl (e, subst (λ pc. ServerTold x pc s.log) e (inv.servers_told x)))
failing-IsFailed {s} inv (x, inr e) =
    (x, inr (e, subst (λ pc. CloserTold pc s.log) e (inv.closers_told x)))

ended_as :
    {s : State}
    → Inv s
    → {pc : MainPc} {e : Option ℕ} → Exits pc s.server s.closer e
    → s.main_pc ≡ pc
    → (n : ℕ) → e ≡ some n
    → ((n ≡ 0) × IsComplete s) ⊎ ((n ≡ 1) × IsFailed s)
ended_as inv (going h) at n e = cc e
ended_as inv (failed h) at n e = inr (cc e, failing-IsFailed inv h)
ended_as inv complete at n e = inl (cc e, returned-IsComplete inv at)

-- In whatever order the threads run, the process ends in one of two ways. With status 0: then both calls
-- of Shutdown have returned without an error, neither server serves, and the log has the line of the
-- graceful shutdown. Or with status 1: then a server, or a call of Shutdown, has failed, and the log has
-- the line of that error.
pub graceful_shutdown :
    {k : ℕ} {s : State}
    → Reach k s
    → (n : ℕ) → s.exit ≡ some n
    → ((n ≡ 0) × IsComplete s) ⊎ ((n ≡ 1) × IsFailed s)
graceful_shutdown r n e = let inv = Reach-Inv r in ended_as inv inv.exits refl n e

-- How many steps are left.
abbrev main_left : MainPc → ℕ
main_left await_signal = 5
main_left add_group = 4
main_left go_app = 3
main_left go_metrics = 2
main_left wait_group = 1
main_left _ = 0

abbrev closer_left : CloserPc → ℕ
closer_left unborn = 2
closer_left called = 2
closer_left waiting = 1
closer_left _ = 0

abbrev server_left : ServerPc → ℕ
server_left serving = 1
server_left closed = 1
server_left _ = 0

abbrev exit_left : Option ℕ → ℕ
exit_left none = 1
exit_left (some n) = 0

module _ {A : Type 0} (w : A → ℕ) where
  abbrev total : (Which → A) → ℕ
  total f = w (f app) + w (f metrics)

  total-update :
      (f : Which → A) (x : Which) (a : A) → total (update f x a) + w (f x) ≡ total f + w a
  total-update f app a = omega arith
  total-update f metrics a = omega arith

server_left-le : (pc : ServerPc) → server_left (closed_by pc) ≤ server_left pc
server_left-le serving = omega arith
server_left-le closed = omega arith
server_left-le stopped = omega arith
server_left-le broken = omega arith

up_left : {pc : ServerPc} → (pc ≡ serving) ⊎ (pc ≡ closed) → server_left pc ≡ 1
up_left (inl e) = ap server_left e
up_left (inr e) = ap server_left e

abbrev left : State → ℕ
left s =
    main_left s.main_pc + total closer_left s.closer + total server_left s.server + exit_left s.exit

Step-left : {s t : State} → Inv s → Step s t → left t < left s
Step-left {s} inv (serve_fails x r e) =
    omega (arith, total-update server_left s.server x broken, up_left e)
Step-left {s} inv (serve_exits x r e) = omega (arith, ap exit_left r)
Step-left {s} inv (serve_ends x r e) =
    omega (arith, total-update server_left s.server x stopped, ap server_left e)
Step-left {s} inv (signal r e) = omega (arith, ap main_left e)
Step-left {s} inv (add r e) = omega (arith, ap main_left e)
Step-left {s} inv (spawn_app r e) =
    omega (arith, ap main_left e, ap closer_left (unborn_app (at_pc inv e)))
Step-left {s} inv (spawn_metrics r e) =
    omega (arith, ap main_left e, ap closer_left (unborn_metrics (at_pc inv e)))
Step-left {s} inv (close x r e) = omega (
  arith,
  total-update closer_left s.closer x waiting,
  ap closer_left e,
  total-update server_left s.server x (closed_by (s.server x)),
  server_left-le (s.server x),
)
Step-left {s} inv (close_ends x r e) =
    omega (arith, total-update closer_left s.closer x done, ap closer_left e)
Step-left {s} inv (close_fails x r e) =
    omega (arith, total-update closer_left s.closer x gave_up, ap closer_left e)
Step-left {s} inv (close_exits x r e) = omega (arith, ap exit_left r)
Step-left {s} inv (wait_ends r e empty) = omega (arith, ap main_left e)
Step-left {s} inv (finish r e) = omega (arith, ap main_left e, ap exit_left r)

Reach-left : {k : ℕ} {s : State} → Reach k s → k + left s ≤ 12
Reach-left start = omega arith
Reach-left (later r st) = omega (arith, Reach-left r, Step-left (Reach-Inv r) st)

-- A shutdown that is not done can go on.
closer_moves :
    (s : State) (x : Which)
    → s.exit ≡ none
    → (c : CloserPc) → s.closer x ≡ c
    → c ≢ unborn
    → c ≢ done
    → (t : State) × Step s t
closer_moves s x r unborn e h k = absurd (h refl)
closer_moves s x r called e h k = (closing x s, close x r e)
closer_moves s x r waiting e h k = (shut x s, close_ends x r e)
closer_moves s x r done e h k = absurd (k refl)
closer_moves s x r gave_up e h k = (exited 1 s, close_exits x r e)

main_moves :
    (s : State)
    → s.exit ≡ none
    → (pc : MainPc) → s.main_pc ≡ pc
    → Phase pc (s.closer app) (s.closer metrics) s.group
    → pc ≢ returned
    → (t : State) × Step s t
main_moves s r await_signal e p h = (at_main add_group s, signal r e)
main_moves s r add_group e p h = (added s, add r e)
main_moves s r go_app e p h = (spawned app go_metrics s, spawn_app r e)
main_moves s r go_metrics e p h = (spawned metrics wait_group s, spawn_metrics r e)
main_moves s r wait_group e p h = elim (Phase-wait p) [
  | inl (inl (u, d)) ↦ closer_moves s app r (s.closer app) refl u d
  | inl (inr (u, d)) ↦ closer_moves s metrics r (s.closer metrics) refl u d
  | inr empty ↦ (completed s, wait_ends r e empty)
]
main_moves s r logged e p h = (finished s, finish r e)
main_moves s r returned e p h = absurd (h refl)

-- The example shuts down: no run of the threads has more than 12 steps, and in every state that they
-- reach, the process has ended, or some thread or what is outside can take a step (the signal, if
-- `main` awaits it).
pub shutdown_ends :
    {k : ℕ} {s : State}
    → Reach k s
    → (k ≤ 12) × (((n : ℕ) × (s.exit ≡ some n)) ⊎ ((t : State) × Step s t))
shutdown_ends {s} r = (omega (arith, Reach-left r), goes_on s.exit refl)
  where
    goes_on : (e : Option ℕ) → s.exit ≡ e → ((n : ℕ) × (s.exit ≡ some n)) ⊎ ((t : State) × Step s t)
    goes_on none e = inr (main_moves s e s.main_pc refl (Reach-Inv r).phase (on e (Reach-Inv r)))
    goes_on (some n) e = inl (n, e)
