-- ===== src/Tests/Shutdown.antt =====
-- A shutdown of the metrics example, and one that fails.
use go_backend_examples.Common.{ℕ, ◌≤◌, ◌≡◌, refl, ◌⊎◌, some, [], ◌∷◌}
use go_backend_examples.Metrics.Servers.{
  app, metrics, go_metrics, add_group, wait_group, State, init, closing, shut, spawned, added,
  at_main, ended, finished, completed, exited, shut_badly, close_fails, close_exits, wait_ends,
  shutdown_error, stopped_line, Step, serve_ends, signal, add, spawn_app, spawn_metrics, close,
  close_ends, finish, Reach, start, later,
}
use go_backend_examples.Metrics.Servers.Graceful.{
  IsComplete, IsFailed, graceful_shutdown, shutdown_ends,
}

-- Both calls of Shutdown run, the one for the metrics first.
abbrev both_called : State
both_called = closing app (
    closing metrics
      (spawned metrics wait_group (spawned app go_metrics (added (at_main add_group init)))))

reach_both_called : Reach 6 both_called
reach_both_called =
    later
      (later
        (later
          (later (later (later start (signal refl refl)) (add refl refl)) (spawn_app refl refl))
          (spawn_metrics refl refl))
        (close metrics refl refl))
      (close app refl refl)

abbrev complete_run : State
complete_run =
    finished (completed (ended metrics (shut metrics (shut app (ended app both_called)))))

-- Every step that there is.
reach_complete_run : Reach 12 complete_run
reach_complete_run =
    later
      (later
        (later
          (later
            (later (later reach_both_called (serve_ends app refl refl)) (close_ends app refl refl))
            (close_ends metrics refl refl))
          (serve_ends metrics refl refl))
        (wait_ends refl refl refl))
      (finish refl refl)

-- A Shutdown that times out: its line, then the line of a server that another goroutine logs, and then
-- the end with status 1.
abbrev timed_out_run : State
timed_out_run = exited 1 (ended app (shut_badly app both_called))

reach_timed_out_run : Reach 9 timed_out_run
reach_timed_out_run =
    later (later (later reach_both_called (close_fails app refl refl)) (serve_ends app refl refl))
      (close_exits app refl refl)

timed_out_log : timed_out_run.log ≡ shutdown_error ∷ stopped_line app ∷ []
timed_out_log = refl

graceful_shutdown_example :
    (◌≡◌ {A = ℕ} 0 0 × IsComplete complete_run) ⊎ (◌≡◌ {A = ℕ} 0 1 × IsFailed complete_run)
graceful_shutdown_example = graceful_shutdown reach_complete_run 0 refl

shutdown_ends_example :
    (6 ≤ 12) × (((n : ℕ) × (both_called.exit ≡ some n)) ⊎ ((t : State) × Step both_called t))
shutdown_ends_example = shutdown_ends reach_both_called
