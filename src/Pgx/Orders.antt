-- ===== src/Pgx/Orders.antt =====
-- Completing an order: pgx-transactions/domain/order.go and pgx-transactions/approach-use-case-boundary.
pub mod Once
pub mod Boundary
use text.Mathlib.Text.{◌==◌ as str_eq}
use go_backend_examples.Common.{String, Bool, not, if◌then◌else◌, ℤ}
use go_backend_examples.Action.{Action, invalid_order_state, pure, fail, wrapped, ◌>>=◌, ◌>>◌}
use go_backend_examples.Pgx.Tx.{TxConfig, Driver, Context, Dbtx}
use go_backend_examples.Pgx.Tx.Work

-- OrderStatus is a string.
abbrev pub order_status_pending_payment : String
order_status_pending_payment = "pending_payment"

abbrev pub order_status_paid : String
order_status_paid = "paid"

pub record Order : Type 0 where
  pub order_id : String
  pub status : String

-- `Amount` is an int64.
pub record CreatePaymentInput : Type 0 where
  pub order_id : String
  pub provider_payment_id : String
  pub amount : ℤ

pub record CompleteOrderCommand : Type 0 where
  pub order_id : String
  pub payment_id : String
  pub amount : ℤ

pub record CheckoutCommand : Type 0 where
  pub cart_id : String
  pub order_id : String

pub record Quote : Type 0 where
  pub amount : ℤ

pub record AuthorizePaymentCommand : Type 0 where
  pub order_id : String
  pub amount : ℤ

pub record PaymentAuthorization : Type 0 where
  pub payment_id : String

module _ (W Tx : Type 0) where
  pub record OrderRepository : Type 0 where
    pub get_by_id : Context Tx → String → Action W Order
    pub mark_paid : Context Tx → String → Action W (Unit {0})

  abbrev pub InventoryRepository : Type 0
  InventoryRepository = Context Tx → String → Action W (Unit {0})

  abbrev pub PaymentRepository : Type 0
  PaymentRepository = Context Tx → CreatePaymentInput → Action W (Unit {0})

  abbrev pub CompleteOrderUseCase : Type 0
  CompleteOrderUseCase = Context Tx → CompleteOrderCommand → Action W (Unit {0})

  abbrev pub PricingService : Type 0
  PricingService = Context Tx → String → Action W Quote

  abbrev pub PaymentGateway : Type 0
  PaymentGateway = Context Tx → AuthorizePaymentCommand → Action W PaymentAuthorization

module _ {W Tx : Type 0} where
  -- completeOrderUseCase.Complete, from the order that was read on.
  unfoldable pub complete_read :
      OrderRepository W Tx
      → InventoryRepository W Tx
      → PaymentRepository W Tx
      → Context Tx
      → CompleteOrderCommand
      → Order
      → Action W (Unit {0})
  complete_read orders inventory payments ctx cmd order =
      if str_eq order.status order_status_paid
      then pure tt
      else if not (str_eq order.status order_status_pending_payment)
      then fail invalid_order_state
      else (wrapped "reserve inventory" (inventory ctx order.order_id)
          >> wrapped "create payment" (
              payments ctx (record {
                order_id = order.order_id;
                provider_payment_id = cmd.payment_id;
                amount = cmd.amount;
              }))
          >> wrapped "mark order paid" (orders.mark_paid ctx order.order_id))

  -- completeOrderUseCase.Complete.
  unfoldable pub complete :
      OrderRepository W Tx
      → InventoryRepository W Tx
      → PaymentRepository W Tx
      → CompleteOrderUseCase W Tx
  unfolding complete_read
  complete orders inventory payments ctx cmd =
      wrapped "get order" (orders.get_by_id ctx cmd.order_id)
      >>= complete_read orders inventory payments ctx cmd

  -- transactionalCompleteOrderUseCase.Complete, on a unit of work.
  abbrev pub transactional_complete :
      (d : Driver W Tx)
      → TxConfig
      → (Dbtx d → CompleteOrderUseCase W Tx)
      → CompleteOrderUseCase W Tx
  transactional_complete d config new_value ctx cmd = wrapped "transactional complete order" (
      Work.do_work d config new_value ctx
        (λ ctx use_case. wrapped "complete order" (use_case ctx cmd)) tt)

  module _ (pricing : PricingService W Tx) (payment : PaymentGateway W Tx)
      (complete_order : CompleteOrderUseCase W Tx) (ctx : Context Tx) (cmd : CheckoutCommand) where
    -- The command that a checkout sends to the use case.
    abbrev pub command : Quote → PaymentAuthorization → CompleteOrderCommand
    command quote paid = record {
      order_id = cmd.order_id;
      payment_id = paid.payment_id;
      amount = quote.amount;
    }

    -- CheckoutService.Checkout, from the authorization on, and from the quote on.
    abbrev pub checkout_authorized : Quote → PaymentAuthorization → Action W (Unit {0})
    checkout_authorized quote paid =
        wrapped "complete order" (complete_order ctx (command quote paid))

    abbrev pub authorize : Quote → Action W PaymentAuthorization
    authorize quote =
        wrapped "authorize payment"
          (payment ctx (record { order_id = cmd.order_id; amount = quote.amount }))

    abbrev pub checkout_quoted : Quote → Action W (Unit {0})
    checkout_quoted quote = authorize quote >>= checkout_authorized quote

    -- CheckoutService.Checkout.
    abbrev pub checkout : Action W (Unit {0})
    checkout = wrapped "get quote" (pricing ctx cmd.cart_id) >>= checkout_quoted
