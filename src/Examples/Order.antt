-- ===== src/Examples/Order.antt =====
-- examples/ftgo-app/services/order/entities/order.entity.ts, with the events of
-- examples/ftgo-app/services/order/api/events.ts. The state that an
-- `UnsupportedStateTransitionException` carries is that of the order.
pub mod Revisions
use nest_convoy.Examples.Money.{Numbers}
use nest_convoy.Prelude.{ℕ, Bool, true, false, Option, none, some, List, [], ◌∷◌, if◌then◌else◌}
use nest_convoy.Prelude.Result.{Result, ok, err}
use nest_convoy.Prelude.Effect.{M, ◌>>=◌, ◌>>◌, pure, throw, lift, get, modify}
use nest_convoy.Common.Exceptions.{unsupported_state_transition, order_minimum_not_met, error}
use nest_convoy.Examples.Money.{Money, is_greater_than_or_equal}
use nest_convoy.Examples.LineItems.{
  OrderLineItem, OrderRevision, DeliveryInfo, LineItemQuantityChange, quantity_change, update,
}

pub data OrderState : Type 0 where
  approval_pending approved rejected cancel_pending cancelled revision_pending : OrderState

pub record OrderDetails (F : Type 0) : Type 0 where
  pub customer_id : ℕ
  pub restaurant_id : ℕ
  pub total : Money F
  pub line_items : List (OrderLineItem F)

pub record Order (F : Type 0) : Type 0 where
  pub id : ℕ
  pub details : OrderDetails F
  pub state : OrderState
  pub delivery_info : Option DeliveryInfo
  pub minimum : Money F

pub data OrderEvent (F : Type 0) : Type 0 where
  order_authorized order_cancelled order_rejected : OrderEvent F
  order_revision_proposed order_revised : OrderRevision F → Money F → Money F → OrderEvent F

abbrev given_or_kept : Option DeliveryInfo → Option DeliveryInfo → Option DeliveryInfo
given_or_kept none kept = kept
given_or_kept (some info) kept = some info

module _ {F : Type 0} ⦃numbers : Numbers F⦄ where
  abbrev pub refused : {A : Type 0} → M (Order F) A
  refused = throw unsupported_state_transition

  abbrev pub to_state : OrderState → M (Order F) (Unit {0})
  to_state st = modify λ o. record o { state = st }

  unfoldable pub cancel : M (Order F) (List (OrderEvent F))
  cancel o = elim o.state [ approved ↦ (to_state cancel_pending >> pure []) o | _ ↦ refused o ]

  unfoldable pub undo_pending_cancel : M (Order F) (List (OrderEvent F))
  undo_pending_cancel o = elim o.state [
    | cancel_pending ↦ (to_state approved >> pure []) o
    | _ ↦ refused o
  ]

  unfoldable pub note_cancelled : M (Order F) (List (OrderEvent F))
  note_cancelled o = elim o.state [
    | cancel_pending ↦ (to_state cancelled >> pure (order_cancelled ∷ [])) o
    | _ ↦ refused o
  ]

  unfoldable pub note_approved : M (Order F) (List (OrderEvent F))
  note_approved o = elim o.state [
    | approval_pending ↦ (to_state approved >> pure (order_authorized ∷ [])) o
    | _ ↦ refused o
  ]

  unfoldable pub note_rejected : M (Order F) (List (OrderEvent F))
  note_rejected o = elim o.state [
    | approval_pending ↦ (to_state rejected >> pure (order_rejected ∷ [])) o
    | _ ↦ refused o
  ]

  unfoldable pub note_reversing_authorization : M (Order F) (Unit {0})
  note_reversing_authorization = throw error

  -- The change, and the event that proposes it; a change that reaches the minimum is thrown at.
  unfoldable pub propose :
      OrderRevision F
      → LineItemQuantityChange F
      → M (Order F) ((LineItemQuantityChange F) × List (OrderEvent F))
  propose revision change o =
      if is_greater_than_or_equal change.new_order_total o.minimum
      then throw order_minimum_not_met o
      else (to_state revision_pending
            >> pure (
              change,
              order_revision_proposed revision change.current_order_total change.new_order_total
                  ∷ [],
            ))
          o

  unfoldable pub revise_in :
      OrderState → OrderRevision F → M (Order F) ((LineItemQuantityChange F) × List (OrderEvent F))
  unfolding propose
  revise_in approved revision o =
      (lift (quantity_change revision o.details.line_items) >>= propose revision) o
  revise_in _ revision o = refused o

  unfoldable pub revise :
      OrderRevision F → M (Order F) ((LineItemQuantityChange F) × List (OrderEvent F))
  unfolding revise_in
  revise revision o = revise_in o.state revision o

  unfoldable pub reject_revision : M (Order F) (List (OrderEvent F))
  reject_revision o = elim o.state [
    | revision_pending ↦ (to_state approved >> pure []) o
    | _ ↦ refused o
  ]

  abbrev pub set_delivery_info : OrderRevision F → M (Order F) (Unit {0})
  set_delivery_info revision =
      modify λ o. record o { delivery_info = given_or_kept revision.delivery_info o.delivery_info }

  -- The items are changed in place.
  abbrev pub on_items : {A : Type 0} → M (List (OrderLineItem F)) A → M (Order F) A
  on_items m o =
      let (r, items) = m o.details.line_items in
      (r, record o { details = record o.details { line_items = items } })

  unfoldable pub confirm_change :
      OrderRevision F → LineItemQuantityChange F → M (Order F) (List (OrderEvent F))
  confirm_change revision change =
      set_delivery_info revision
      >> on_items (update revision)
      >> to_state approved
      >> pure (order_revised revision change.current_order_total change.new_order_total ∷ [])

  unfoldable pub confirm_in : OrderState → OrderRevision F → M (Order F) (List (OrderEvent F))
  unfolding confirm_change
  confirm_in revision_pending revision o =
      (lift (quantity_change revision o.details.line_items) >>= confirm_change revision) o
  confirm_in _ revision o = refused o

  unfoldable pub confirm_revision : OrderRevision F → M (Order F) (List (OrderEvent F))
  unfolding confirm_in
  confirm_revision revision o = confirm_in o.state revision o
