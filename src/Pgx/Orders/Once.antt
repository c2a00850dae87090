-- ===== src/Pgx/Orders/Once.antt =====
-- That an order is completed at most once.
use text.Mathlib.Text.{◌==◌ as str_eq}
use go_backend_examples.Common.{
  subst, String, ◌≡◌, refl, ◌∙◌, ap, sym, true, false, Bool-cases, inl, inr,
}
use go_backend_examples.Action.{
  invalid_order_state, Result, ok, err, Action, continue, wrapped, wrap_result, ◌>>◌,
}
use go_backend_examples.Pgx.Tx.{Context}
use go_backend_examples.Pgx.Orders.{
  Order, order_status_paid, order_status_pending_payment, OrderRepository, InventoryRepository,
  PaymentRepository, CompleteOrderCommand, CreatePaymentInput, complete, complete_read,
}

wrap_result-ok :
    {A : Type 0} (s : String) (r : Result A) (a : A) → wrap_result s r ≡ ok a → r ≡ ok a
wrap_result-ok s (ok a) b h = h
wrap_result-ok s (err e) b h = cc

module _ {W A B : Type 0} where
  continue-ok :
      (r : Result A) (n : A → Action W B) (w w' : W) (b : B)
      → continue r n w ≡ (ok b, w')
      → (a : A) × (r ≡ ok a) × (n a w ≡ (ok b, w'))
  continue-ok (ok a) n w w' b h = (a, refl, h)
  continue-ok (err e) n w w' b h = cc (ap (λ o. o.0) h)

module _ {W Tx : Type 0} (orders : OrderRepository W Tx) (ctx : Context Tx) where
  -- The order `k` is read as paid.
  abbrev pub IsPaid : String → W → Type 0
  IsPaid k w =
      (order : Order) × ((orders.get_by_id ctx k w).0 ≡ ok order)
      × (str_eq order.status order_status_paid ≡ true)

  -- What a repository of orders promises: it returns the order that was asked for, a read does not
  -- change a paid order, and an order marked as paid is read as paid.
  pub record IsOrderRepository : Type 0 where
    pub read_id :
        (k : String) (w : W) (order : Order)
        → (orders.get_by_id ctx k w).0 ≡ ok order
        → order.order_id ≡ k
    pub read_paid : (k : String) (w : W) → IsPaid k w → IsPaid k (orders.get_by_id ctx k w).1
    pub marked :
        (k : String) (w : W)
        → (orders.mark_paid ctx k w).0 ≡ ok tt
        → IsPaid k (orders.mark_paid ctx k w).1

  module _ (inventory : InventoryRepository W Tx) (payments : PaymentRepository W Tx) where
    -- An order that is read as paid is left alone: nothing but the read happens.
    complete-paid :
        (cmd : CompleteOrderCommand) (w : W)
        → IsPaid cmd.order_id w
        → complete orders inventory payments ctx cmd w
          ≡ (ok tt, (orders.get_by_id ctx cmd.order_id w).1)
    unfolding complete complete_read
    complete-paid cmd w (order, e, paid) = rw (e, paid)

    module _ (cmd : CompleteOrderCommand) (order : Order) (w : W) where
      -- The input of the payment.
      abbrev payment_of : CreatePaymentInput
      payment_of = record {
        order_id = order.order_id;
        provider_payment_id = cmd.payment_id;
        amount = cmd.amount;
      }

      read_paid_order :
          str_eq order.status order_status_paid ≡ true
          → complete_read orders inventory payments ctx cmd order w ≡ (ok tt, w)
      unfolding complete_read
      read_paid_order p = rw p

      -- The calls before the order is marked.
      abbrev settle : Action W (Unit {0})
      settle =
          wrapped "reserve inventory" (inventory ctx order.order_id)
          >> wrapped "create payment" (payments ctx payment_of)

      read_pending_order :
          str_eq order.status order_status_paid ≡ false
          → str_eq order.status order_status_pending_payment ≡ true
          → complete_read orders inventory payments ctx cmd order w
            ≡ (settle >> wrapped "mark order paid" (orders.mark_paid ctx order.order_id)) w
      unfolding complete_read
      read_pending_order p q = rw (p, q)

      read_other_order :
          str_eq order.status order_status_paid ≡ false
          → str_eq order.status order_status_pending_payment ≡ false
          → complete_read orders inventory payments ctx cmd order w ≡ (err invalid_order_state, w)
      unfolding complete_read
      read_other_order p q = rw (p, q)

    -- A success leaves the order paid, whether it was or has become so.
    marked-IsPaid :
        IsOrderRepository
        → (k : String) (m : Action W (Unit {0})) (w w' : W)
        → (m >> wrapped "mark order paid" (orders.mark_paid ctx k)) w ≡ (ok tt, w')
        → IsPaid k w'
    marked-IsPaid laws k m w w' h =
        let (u, before, mark) =
          continue-ok (m w).0 (λ _. wrapped "mark order paid" (orders.mark_paid ctx k)) (m w).1 w'
            tt h in
        subst (IsPaid k) (ap (λ o. o.1) mark) (
          laws.marked k (m w).1 (
            wrap_result-ok "mark order paid" (orders.mark_paid ctx k (m w).1).0 tt
              (ap (λ o. o.0) mark)))

    read-IsPaid :
        IsOrderRepository
        → (cmd : CompleteOrderCommand) (w w₁ w' : W) (order : Order)
        → (orders.get_by_id ctx cmd.order_id w).0 ≡ ok order
        → (orders.get_by_id ctx cmd.order_id w).1 ≡ w₁
        → complete_read orders inventory payments ctx cmd order w₁ ≡ (ok tt, w')
        → IsPaid cmd.order_id w'
    read-IsPaid laws cmd w w₁ w' order e e₁ h =
        elim (Bool-cases (str_eq order.status order_status_paid)) [
          | inl p ↦
              subst (IsPaid cmd.order_id)
                (e₁ ∙ ap (λ o. o.1) (sym (read_paid_order cmd order w₁ p) ∙ h))
                (laws.read_paid cmd.order_id w (order, e, p))
          | inr p ↦ elim (Bool-cases (str_eq order.status order_status_pending_payment)) [
            | inl q ↦
                subst (λ k. IsPaid k w') (laws.read_id cmd.order_id w order e)
                  (marked-IsPaid laws order.order_id (settle cmd order w₁) w₁ w'
                    (sym (read_pending_order cmd order w₁ p q) ∙ h))
            | inr q ↦ cc (ap (λ o. o.0) (sym (read_other_order cmd order w₁ p q) ∙ h))
          ]
        ]

    complete-IsPaid :
        IsOrderRepository
        → (cmd : CompleteOrderCommand) (w w' : W)
        → complete orders inventory payments ctx cmd w ≡ (ok tt, w')
        → IsPaid cmd.order_id w'
    unfolding complete
    complete-IsPaid laws cmd w w' h =
        let (order, e, rest) =
          continue-ok (wrapped "get order" (orders.get_by_id ctx cmd.order_id) w).0
            (complete_read orders inventory payments ctx cmd)
            (orders.get_by_id ctx cmd.order_id w).1 w' tt h in
        read-IsPaid laws cmd w _ w' order
          (wrap_result-ok "get order" (orders.get_by_id ctx cmd.order_id w).0 order e) refl rest

    -- An order is completed once: after Complete has succeeded, a second Complete for the same order,
    -- with whatever payment, succeeds and does nothing but read the order, if the repository returns
    -- the order that was asked for, reads an order that was marked as paid as paid, and a read keeps
    -- it so.
    pub complete_once :
        IsOrderRepository
        → (cmd second : CompleteOrderCommand) (w w' : W)
        → complete orders inventory payments ctx cmd w ≡ (ok tt, w')
        → second.order_id ≡ cmd.order_id
        → complete orders inventory payments ctx second w'
          ≡ (ok tt, (orders.get_by_id ctx second.order_id w').1)
    complete_once laws cmd second w w' h same =
        complete-paid second w'
          (subst (λ k. IsPaid k w') (sym same) (complete-IsPaid laws cmd w w' h))
