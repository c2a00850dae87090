-- ===== src/Tests/Memory.antt =====
-- A database in memory: what is committed, what the open transaction sees, and the next id; every
-- statement changes the state by `write`.
use go_backend_examples.Common.{ℕ, ◌+◌, String, ◌≡◌, refl, List, none}
use go_backend_examples.Action.{Result, ok, err, Action}
use go_backend_examples.Pgx.Tx.{Arg, Driver}
use go_backend_examples.Pgx.Tx.Atomic.{Database, IsTransactional, IsBegin, Commits}

pub record World (S : Type 0) : Type 0 where
  pub rows : S
  pub open_rows : S
  pub next : ℕ

module _ {S : Type 0} where
  abbrev finish : {A : Type 0} → Result A → World S → Result A × World S
  finish (ok a) w = (ok a, record { rows = w.open_rows; open_rows = w.open_rows; next = w.next })
  finish (err e) w = (err e, record { rows = w.rows; open_rows = w.rows; next = w.next })

  abbrev begin : {A : Type 0} → (Unit {0} → Action (World S) A) → Action (World S) A
  begin body w =
      let (r, w') = body tt (record { rows = w.rows; open_rows = w.rows; next = w.next }) in
      finish r w'

  abbrev pub store : Database (World S) (Unit {0}) S
  store = record { committed = λ w. w.rows; view = λ tx w. w.open_rows }

  finish-Commits :
      (A : Type 0) (body : Unit {0} → Action (World S) A) (w : World S) (r : Result A)
      (w' : World S)
      → w'.rows ≡ w.rows
      → body tt (record { rows = w.rows; open_rows = w.rows; next = w.next }) ≡ (r, w')
      → Commits store body w (finish r w')
  finish-Commits A body w (ok a) w' kept h =
      (tt, record { rows = w.rows; open_rows = w.rows; next = w.next }, refl, rw h, rw h)
  finish-Commits A body w (err e) w' kept h = kept

  begin-IsBegin : IsBegin store (λ A. begin {A = A})
  begin-IsBegin A body keeps w = finish-Commits A body w _ _ (keeps tt _) refl

  module _ (write : String → List Arg → S → S) where
    abbrev pub memory : Driver (World S) (Unit {0})
    memory = record {
      pool_exec = λ sql args w.
          (ok tt, record { rows = write sql args w.rows; open_rows = w.open_rows; next = w.next });
      tx_exec = λ tx sql args w.
          (ok tt, record { rows = w.rows; open_rows = write sql args w.open_rows; next = w.next });
      begin_tx_func = λ level. begin;
      begin_func = begin;
      await = λ n w. (none, w);
      new_uuid =
          λ w. (w.next, record { rows = w.rows; open_rows = w.open_rows; next = w.next + 1 });
    }

    pub memory-IsTransactional : IsTransactional memory store write
    memory-IsTransactional = record {
      tx_exec_law = λ tx sql args w. (refl, refl);
      begin_tx_func_law = λ level. begin-IsBegin;
      begin_func_law = begin-IsBegin;
      new_uuid_law = λ w. (refl, λ tx. refl);
    }
