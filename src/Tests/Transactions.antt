-- ===== src/Tests/Transactions.antt =====
-- The transactions of pgx-transactions on a database in memory.
use go_backend_examples.Common.{
  ap, sym, if◌then◌else◌, zero, suc, ℕ, ◌+◌, String, ◌≡◌, refl, List, [], ◌∷◌, none, pos, ◌≤◌, ◌<◌,
  arith, ◌-◌, Bool, true, false,
}
use go_backend_examples.Action.{pg_error, wrap, Result, ok, err, Action}
use go_backend_examples.Pgx.Retry.{
  with_retry, no_backoff, retry_loop, after_attempt, is_retryable_tx_error,
}
use go_backend_examples.Pgx.Retry.Runs.{Runs, IsRetryable, allowed, with_retry-Runs}
use go_backend_examples.Pgx.Retry.Succeeds.{world_after, with_retry-Succeeds}
use go_backend_examples.Pgx.Tx.{Arg, Context, serializable_tx, default_tx, context_executor}
use go_backend_examples.Pgx.Tx.Manager
use go_backend_examples.Pgx.Tx.Work
use go_backend_examples.Pgx.Tx.Atomic.{Changes, do_tx-Changes, do_work-Changes}
use go_backend_examples.Pgx.Users.{
  insert_user, insert_profile, CreateUserWithProfileInput, create_in_ctx, create_in_work,
  create_user, create_profile, application, pgx_transactional_user_service, tx_manager_user_service,
  unit_of_work_user_service, service_on,
}
use go_backend_examples.Pgx.Users.Returns.{Creates, services-Creates}
use go_backend_examples.Pgx.Orders.{
  order_status_paid, order_status_pending_payment, Order, OrderRepository, CompleteOrderCommand,
  complete, complete_read, checkout, transactional_complete,
}
use go_backend_examples.Pgx.Orders.Boundary.{Completes, checkout-Completes}
use go_backend_examples.Pgx.Orders.Once.{complete_once, IsPaid, IsOrderRepository}
use go_backend_examples.Tests.Memory.{World, store, memory, memory-IsTransactional}

abbrev pub write : String → List Arg → List String → List String
write sql args rows = sql ∷ rows

abbrev background : Context (Unit {0})
background = record { tx = none }

abbrev start : World (List String)
start = record { rows = []; open_rows = []; next = 7 }

abbrev alice : CreateUserWithProfileInput
alice = record {
  username = "alice";
  password = "secret";
  description = "";
  contact = "";
  social_media_links = "https://example.com" ∷ [];
}

-- One serialization failure, then a success.
abbrev flaky : Action ℕ String
flaky zero = (err (wrap "pgx tx" (pg_error "40001")), 1)
flaky (suc n) = (ok "done", suc n)

with_retry-Runs_example :
    (k : ℕ) × Runs flaky
      (allowed (pos 3) - 1)
      k
      0
      (with_retry (λ n w. (none, w)) no_backoff flaky "" (pos 3) 0)
    × (1 ≤ k)
    × (k ≤ allowed (pos 3))
with_retry-Runs_example = with_retry-Runs (λ n w. (none, w)) flaky "" (pos 3) 0

flaky_fails : (i : ℕ) → i < 1 → IsRetryable (flaky (world_after flaky i 0)).0
unfolding is_retryable_tx_error
flaky_fails zero h = refl
flaky_fails (suc i) h = absurd (omega (arith, h))

with_retry-Succeeds_example :
    with_retry (λ n w. (none, w)) (λ attempt. pos (attempt + 10)) flaky "" (pos 3) 0
    ≡ (ok "done", 1)
with_retry-Succeeds_example =
    with_retry-Succeeds (λ n w. (none, w)) (λ attempt. pos (attempt + 10)) flaky "" (pos 3) 1 0
      "done" (omega arith) (λ n w. refl) flaky_fails refl

do_tx-Changes_example :
    Changes store
      (λ _. write "x" [])
      start
      (Manager.do_tx
        (memory write)
        serializable_tx
        background
        (λ ctx. context_executor (memory write) ctx "x" [])
        tt
        start)
do_tx-Changes_example =
    do_tx-Changes (memory write) store write (memory-IsTransactional write) serializable_tx
      (λ _. write "x" []) background tt (λ ctx. context_executor (memory write) ctx "x" [])
      (λ tx w. (refl, refl)) start

do_work-Changes_example :
    Changes store
      (λ _. write "x" [])
      start
      (Work.do_work
        (memory write)
        default_tx
        (λ db. db)
        background
        (λ ctx db. db ctx "x" [])
        tt
        start)
do_work-Changes_example =
    do_work-Changes (memory write) store write (memory-IsTransactional write) default_tx
      (λ _. write "x" []) background tt (λ db. db) (λ ctx db. db ctx "x" []) (λ tx w. (refl, refl))
      start

services-Creates_example :
    let d = memory write in
    Creates store write background alice (
      create_in_ctx d default_tx
        (create_user d (context_executor d))
        (create_profile d (context_executor d)))
    × Creates store write background alice (create_in_work d default_tx)
    × Creates store write background alice (application d (pgx_transactional_user_service d))
    × Creates store write background alice
        (application d (tx_manager_user_service d default_tx (service_on d (context_executor d))))
    × Creates store write background alice (application d (unit_of_work_user_service d default_tx))
services-Creates_example =
    services-Creates (memory write) store write (memory-IsTransactional write) background alice
      default_tx

-- Two rows are committed.
two_rows :
    (create_in_ctx
      (memory write)
      default_tx
      (create_user (memory write) (context_executor (memory write)))
      (create_profile (memory write) (context_executor (memory write)))
      background
      alice
      start).1.rows
    ≡ insert_profile ∷ insert_user ∷ []
unfolding with_retry retry_loop after_attempt
two_rows = refl

-- A use case that writes one row, a price and an authorization.
checkout-Completes_example :
    Completes store
      (λ c. write c.payment_id [])
      "order"
      start
      (checkout
        (λ ctx cart w. (ok (record { amount = pos 5 }), w))
        (λ ctx order w. (ok (record { payment_id = "p" }), w))
        (transactional_complete (memory write) default_tx (λ db ctx c. db ctx c.payment_id []))
        background
        (record { cart_id = "cart"; order_id = "order" })
        start)
checkout-Completes_example =
    checkout-Completes (memory write) store write (memory-IsTransactional write) default_tx
      (λ db ctx c. db ctx c.payment_id []) (λ ctx cart w. (ok (record { amount = pos 5 }), w))
      (λ ctx order w. (ok (record { payment_id = "p" }), w)) (λ c. write c.payment_id []) background
      (record { cart_id = "cart"; order_id = "order" }) (λ cart w. refl) (λ order w. refl)
      (λ c tx w. (refl, refl)) start

-- One order, whose world says whether it is paid.
abbrev one_order : OrderRepository Bool (Unit {0})
one_order = record {
  get_by_id = λ ctx k paid. (
    ok (record {
      order_id = k;
      status = if paid then order_status_paid else order_status_pending_payment;
    }),
    paid,
  );
  mark_paid = λ ctx k paid. (ok tt, true);
}

IsPaid-stays :
    (k : String) (w : Bool) → IsPaid one_order background k w → IsPaid one_order background k w
IsPaid-stays k w h = h

one_order_id :
    (k : String) (w : Bool) (order : Order)
    → (one_order.get_by_id background k w).0 ≡ ok order
    → order.order_id ≡ k
one_order_id k w order h = ap (λ r. id_of r) (sym h)
  where
    id_of : Result Order → String
    id_of (ok o) = o.order_id
    id_of (err e) = k

one_order-IsOrderRepository : IsOrderRepository one_order background
one_order-IsOrderRepository = record {
  read_id = one_order_id;
  read_paid = IsPaid-stays;
  marked = λ k w h. (record { order_id = k; status = order_status_paid }, refl, refl);
}

abbrev first_try : CompleteOrderCommand
first_try = record { order_id = "o"; payment_id = "p"; amount = pos 5 }

abbrev second_try : CompleteOrderCommand
second_try = record { order_id = "o"; payment_id = "q"; amount = pos 5 }

completes_first :
    complete one_order
      (λ ctx k w. (ok tt, w))
      (λ ctx input w. (ok tt, w))
      background
      first_try
      false
    ≡ (ok tt, true)
unfolding complete complete_read
completes_first = refl

complete_once_example :
    complete one_order
      (λ ctx k w. (ok tt, w))
      (λ ctx input w. (ok tt, w))
      background
      second_try
      true
    ≡ (ok tt, (one_order.get_by_id background "o" true).1)
complete_once_example =
    complete_once one_order background (λ ctx k w. (ok tt, w)) (λ ctx input w. (ok tt, w))
      one_order-IsOrderRepository first_try second_try false true completes_first refl
