-- ===== src/Examples/OrderService.antt =====
-- examples/ftgo-app/services/order/services/order.service.ts. The repository of orders, the
-- publisher of their events and the factory of sagas are a parameter.
use nest_convoy.Examples.Money.{Numbers}
use nest_convoy.Prelude.{ℕ, Option, none, some, List}
use nest_convoy.Prelude.Effect.{M, ◌>>=◌, ◌>>◌, pure, throw, lift}
use nest_convoy.Common.Exceptions.{order_not_found}
use nest_convoy.Examples.LineItems.{OrderRevision, LineItemQuantityChange}
use nest_convoy.Examples.Order.{
  Order, OrderEvent, note_approved, note_rejected, cancel, undo_pending_cancel, revise,
  reject_revision, confirm_revision,
}

-- The data that the saga of a revision is given; the restaurant is not among them.
pub record ReviseOrderSagaData (F : Type 0) : Type 0 where
  pub order_id : ℕ
  pub customer_id : ℕ
  pub restaurant_id : Option ℕ
  pub order_revision : OrderRevision F

pub record OrderRepository (F : Type 0) (S : Type 0) : Type 0 where
  pub find_order : ℕ → M S (Option (Order F))
  pub save_order : Order F → M S (Order F)
  pub publish_events : Order F → List (OrderEvent F) → M S (Unit {0})
  pub create_saga : (ReviseOrderSagaData F) → M S (Unit {0})

module _ {S F : Type 0} ⦃numbers : Numbers F⦄ (repository : OrderRepository F S) where
  abbrev pub order_or_fail : ℕ → Option (Order F) → M S (Order F)
  order_or_fail id none = throw (order_not_found id)
  order_or_fail id (some o) = pure o

  unfoldable pub find_order_or_fail : ℕ → M S (Order F)
  find_order_or_fail id = repository.find_order id >>= order_or_fail id

  -- `update`, with what the mutation leaves besides its events.
  unfoldable pub update_order :
      {A : Type 0} → ℕ → M (Order F) (A × List (OrderEvent F)) → M S ((Order F) × A)
  unfolding find_order_or_fail
  update_order id mutate = do
    found ← find_order_or_fail id
    (result, events) ← lift (mutate found).0
    saved ← repository.save_order (mutate found).1
    repository.publish_events saved events
    pure (saved, result)

  abbrev pub only_events :
      M (Order F) (List (OrderEvent F)) → M (Order F) (Unit {0} × List (OrderEvent F))
  only_events m = m >>= λ events. pure (tt, events)

  unfoldable pub approve : ℕ → M S (Unit {0})
  unfolding update_order
  approve id = update_order id (only_events note_approved) >> pure tt

  unfoldable pub reject : ℕ → M S (Unit {0})
  unfolding update_order
  reject id = update_order id (only_events note_rejected) >> pure tt

  unfoldable pub begin_cancel : ℕ → M S (Unit {0})
  unfolding update_order
  begin_cancel id = update_order id (only_events cancel) >> pure tt

  unfoldable pub undo_cancel_order : ℕ → M S (Unit {0})
  unfolding update_order
  undo_cancel_order id = update_order id (only_events undo_pending_cancel) >> pure tt

  unfoldable pub start_revision : ℕ → OrderRevision F → M S (Order F)
  unfolding find_order_or_fail
  start_revision id revision = do
    order ← find_order_or_fail id
    repository.create_saga (record {
      order_id = id;
      customer_id = order.details.customer_id;
      restaurant_id = none;
      order_revision = revision;
    })
    pure order

  -- `new RevisedOrder(order, result)`.
  unfoldable pub begin_revise_of :
      ℕ → OrderRevision F → M S ((Order F) × (LineItemQuantityChange F))
  unfolding update_order
  begin_revise_of id revision = update_order id (revise revision)

  unfoldable pub undo_pending_revision : ℕ → M S (Unit {0})
  unfolding update_order
  undo_pending_revision id = update_order id (only_events reject_revision) >> pure tt

  unfoldable pub confirm_revision_of : ℕ → OrderRevision F → M S (Unit {0})
  unfolding update_order
  confirm_revision_of id revision =
      update_order id (only_events (confirm_revision revision)) >> pure tt
