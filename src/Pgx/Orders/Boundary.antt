-- ===== src/Pgx/Orders/Boundary.antt =====
-- Where the transaction of a checkout begins and ends.
use go_backend_examples.Common.{String, ◌≡◌, refl, ◌∙◌, ap, List}
use go_backend_examples.Action.{Result, ok, err, Action, continue, wrapped, ◌>>=◌}
use go_backend_examples.Pgx.Tx.{Arg, TxConfig, Driver, Context, Dbtx, tx_db}
use go_backend_examples.Pgx.Tx.Atomic.{
  Database, Changes, IsAtomic, StaysIn, IsTransactional, wrapped-IsAtomic, wrapped-StaysIn,
  do_work-Changes,
}
use go_backend_examples.Pgx.Orders.{
  CompleteOrderCommand, CompleteOrderUseCase, CheckoutCommand, PricingService, PaymentGateway,
  AuthorizePaymentCommand, transactional_complete, command, authorize, checkout_authorized,
  checkout_quoted, checkout,
}

module _ {W Tx S : Type 0} (db : Database W Tx S) where
  -- A call that leaves the committed state of the database.
  abbrev pub Keeps : {A : Type 0} → Action W A → Type 0
  Keeps m = (w : W) → db.committed (m w).1 ≡ db.committed w

  -- How a checkout ends: with an error and the committed state as it was, or with the change of one
  -- command for the order of the checkout.
  abbrev pub Completes :
      (CompleteOrderCommand → S → S) → String → W → Result (Unit {0}) × W → Type 0
  Completes change k w (ok u, w') =
      (c : CompleteOrderCommand) × (c.order_id ≡ k) × (db.committed w' ≡ change c (db.committed w))
  Completes change k w (err e, w') = db.committed w' ≡ db.committed w

  completed :
      (change : CompleteOrderCommand → S → S) (c : CompleteOrderCommand) (w : W)
      (o : Result (Unit {0}) × W)
      → Changes db (λ _. change c) w o
      → Completes change c.order_id w o
  completed change c w (ok u, w') h = (c, refl, h)
  completed change c w (err e, w') h = h

  later :
      (change : CompleteOrderCommand → S → S) (k : String) (w w₁ : W) (o : Result (Unit {0}) × W)
      → db.committed w₁ ≡ db.committed w
      → Completes change k w₁ o
      → Completes change k w o
  later change k w w₁ (ok u, w') e (c, same, h) = (c, same, h ∙ ap (change c) e)
  later change k w w₁ (err x, w') e h = h ∙ e

  continue-Completes :
      {A : Type 0} (change : CompleteOrderCommand → S → S) (k : String) (w w₁ : W) (r : Result A)
      (n : A → Action W (Unit {0}))
      → db.committed w₁ ≡ db.committed w
      → ((a : A) (w : W) → Completes change k w (n a w))
      → Completes change k w (continue r n w₁)
  continue-Completes change k w w₁ (ok a) n e h = later change k w w₁ (n a w₁) e (h a w₁)
  continue-Completes change k w w₁ (err x) n e h = e

  >>=-Completes :
      {A : Type 0} (change : CompleteOrderCommand → S → S) (k : String) (m : Action W A)
      (n : A → Action W (Unit {0}))
      → Keeps m
      → ((a : A) (w : W) → Completes change k w (n a w))
      → (w : W) → Completes change k w ((m >>= n) w)
  >>=-Completes change k m n e h w = continue-Completes change k w (m w).1 (m w).0 n (e w) h

module _ {W Tx S : Type 0} (d : Driver W Tx) (db : Database W Tx S)
    (effect : String → List Arg → S → S) (laws : IsTransactional d db effect) where
  -- The use case behind the transactional decorator is all or nothing, if the one that is built on
  -- the transaction stays inside of it.
  pub transactional_complete-IsAtomic :
      (config : TxConfig) (new_value : Dbtx d → CompleteOrderUseCase W Tx) (change : S → S)
      (ctx : Context Tx) (cmd : CompleteOrderCommand)
      → ((tx : Tx) → StaysIn db (λ _. change) tx (new_value (tx_db d tx) ctx cmd))
      → IsAtomic db (λ _. change) (transactional_complete d config new_value ctx cmd)
  transactional_complete-IsAtomic config new_value change ctx cmd h =
      wrapped-IsAtomic db (λ _. change) "transactional complete order" _
        (do_work-Changes d db effect laws config (λ _. change) ctx tt new_value
          (λ ctx use_case. wrapped "complete order" (use_case ctx cmd))
          λ tx. wrapped-StaysIn db (λ _. change) "complete order" tx _ (h tx))

  -- A checkout over the transactional use case, with pgx and the database as `IsTransactional` says: if the pricing service and the payment gateway do not
  -- write to the database, and the use case on a transaction stays inside of it with the effect
  -- `change c` for a command `c`, then an error of the checkout, at whichever of its three steps,
  -- leaves the committed state of the database, and a success commits, exactly once, the change of
  -- one command for the order of the checkout.
  pub checkout-Completes :
      (config : TxConfig) (new_value : Dbtx d → CompleteOrderUseCase W Tx)
      (pricing : PricingService W Tx) (payment : PaymentGateway W Tx)
      (change : CompleteOrderCommand → S → S) (ctx : Context Tx) (cmd : CheckoutCommand)
      → ((cart : String) → Keeps db (pricing ctx cart))
      → ((order : AuthorizePaymentCommand) → Keeps db (payment ctx order))
      → ((c : CompleteOrderCommand) (tx : Tx)
          → StaysIn db (λ _. change c) tx (new_value (tx_db d tx) ctx c))
      → (w : W)
      → Completes db change cmd.order_id w
          (checkout pricing payment (transactional_complete d config new_value) ctx cmd w)
  checkout-Completes config new_value pricing payment change ctx cmd price pay h =
      let use_case = transactional_complete d config new_value in
      let made = command pricing payment use_case ctx cmd in
      >>=-Completes db change cmd.order_id (wrapped "get quote" (pricing ctx cmd.cart_id))
        (checkout_quoted pricing payment use_case ctx cmd) (price cmd.cart_id)
        λ quote.
          >>=-Completes db change cmd.order_id (authorize pricing payment use_case ctx cmd quote)
            (checkout_authorized pricing payment use_case ctx cmd quote)
            (pay (record { order_id = cmd.order_id; amount = quote.amount }))
            λ paid w. completed db change (made quote paid) w _ (
              wrapped-IsAtomic db (λ _. change (made quote paid)) "complete order" _
                (transactional_complete-IsAtomic config new_value (change (made quote paid)) ctx _
                  (h (made quote paid)))
                w)
