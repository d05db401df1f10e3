-- ===== src/Examples/TicketService.antt =====
-- examples/ftgo-app/services/kitchen: services/ticket.service.ts and
-- handlers/ticket-commands-handler.ts. The repository of tickets and the publisher of their events
-- are a parameter; a row is a ticket with its identifiers. The line items of a ticket are of a type
-- `L`, since no method reads them.
use nest_convoy.Prelude.{ℕ, Option, none, some, List, []}
use nest_convoy.Prelude.Effect.{M, ◌>>=◌, ◌>>◌, pure, throw, lift}
use nest_convoy.Common.Exceptions.{ticket_not_found}
use nest_convoy.Examples.Ticket.{
  Ticket, TicketEvent, accept, confirm_create, cancel_create, cancel, confirm_cancel, undo_cancel,
  begin_revise_order, undo_begin_revise_order, confirm_revise_ticket,
}

pub record TicketRow : Type 0 where
  pub id : ℕ
  pub ticket : Ticket

pub record TicketRepository (S L : Type 0) : Type 0 where
  pub find_ticket : ℕ → M S (Option TicketRow)
  pub save_ticket : TicketRow → M S (Unit {0})
  -- `save` of the restaurant, the order and the line items: a new row
  pub create_ticket : ℕ → ℕ → L → M S TicketRow
  pub publish_events : TicketRow → List TicketEvent → M S (Unit {0})

module _ {S L : Type 0} (repository : TicketRepository S L) where
  abbrev pub found_or_fail : ℕ → Option TicketRow → M S TicketRow
  found_or_fail id none = throw (ticket_not_found id)
  found_or_fail id (some row) = pure row

  unfoldable pub find_or_fail : ℕ → M S TicketRow
  find_or_fail id = repository.find_ticket id >>= found_or_fail id

  -- The body that the methods share: find, change, save, publish.
  unfoldable pub change_ticket : M Ticket (List TicketEvent) → ℕ → M S (Unit {0})
  unfolding find_or_fail
  change_ticket method id = do
    row ← find_or_fail id
    events ← lift (method row.ticket).0
    repository.save_ticket (record row { ticket = (method row.ticket).1 })
    repository.publish_events (record row { ticket = (method row.ticket).1 }) events

  unfoldable pub create : ℕ → ℕ → L → M S TicketRow
  create restaurant_id order_id line_items = do
    row ← repository.create_ticket restaurant_id order_id line_items
    repository.publish_events row []
    pure row

  unfoldable pub accept_ticket : ℕ → ℕ → ℕ → M S (Unit {0})
  unfolding change_ticket
  accept_ticket now ticket_id ready_by = change_ticket (accept now ready_by) ticket_id

  unfoldable pub confirm_create_ticket : ℕ → M S (Unit {0})
  unfolding change_ticket
  confirm_create_ticket = change_ticket confirm_create

  unfoldable pub cancel_create_ticket : ℕ → M S (Unit {0})
  unfolding change_ticket
  cancel_create_ticket = change_ticket cancel_create

  -- The restaurant is not looked at, here and below.
  unfoldable pub cancel_ticket : ℕ → ℕ → M S (Unit {0})
  unfolding change_ticket
  cancel_ticket restaurant_id = change_ticket cancel

  unfoldable pub confirm_cancel_ticket : ℕ → ℕ → M S (Unit {0})
  unfolding change_ticket
  confirm_cancel_ticket restaurant_id = change_ticket confirm_cancel

  unfoldable pub undo_cancel_ticket : ℕ → ℕ → M S (Unit {0})
  unfolding change_ticket
  undo_cancel_ticket restaurant_id = change_ticket undo_cancel

  unfoldable pub begin_revise : ℕ → ℕ → L → M S (Unit {0})
  unfolding change_ticket
  begin_revise restaurant_id ticket_id items = change_ticket begin_revise_order ticket_id

  unfoldable pub undo_begin_revise : ℕ → ℕ → M S (Unit {0})
  unfolding change_ticket
  undo_begin_revise restaurant_id = change_ticket undo_begin_revise_order

  unfoldable pub confirm_revise : ℕ → ℕ → L → M S (Unit {0})
  unfolding change_ticket
  confirm_revise restaurant_id ticket_id items = change_ticket confirm_revise_ticket ticket_id

-- The commands of the handlers, with the identifiers that they have.
pub data TicketCommand (L : Type 0) : Type 0 where
  create_ticket_command : ℕ → ℕ → L → TicketCommand L
  confirm_create_command cancel_create_command : ℕ → TicketCommand L
  begin_cancel_command confirm_cancel_command undo_begin_cancel_command : ℕ → ℕ → TicketCommand L
  begin_revise_command confirm_revise_command : ℕ → ℕ → L → TicketCommand L
  undo_begin_revise_command : ℕ → ℕ → TicketCommand L

-- The reply has the identifier of a ticket that was made.
module _ {S L : Type 0} (repository : TicketRepository S L) where
  -- Most of the commands have an order's identifier, which is handed on as the ticket's.
  unfoldable pub handle_ticket_command : TicketCommand L → M S (Option ℕ)
  unfolding create confirm_create_ticket cancel_create_ticket cancel_ticket confirm_cancel_ticket
      undo_cancel_ticket begin_revise undo_begin_revise confirm_revise
  handle_ticket_command (create_ticket_command restaurant_id order_id items) =
      create repository restaurant_id order_id items >>= λ row. pure (some row.id)
  handle_ticket_command (confirm_create_command ticket_id) =
      confirm_create_ticket repository ticket_id >> pure none
  handle_ticket_command (cancel_create_command ticket_id) =
      cancel_create_ticket repository ticket_id >> pure none
  handle_ticket_command (begin_cancel_command restaurant_id order_id) =
      cancel_ticket repository restaurant_id order_id >> pure none
  handle_ticket_command (confirm_cancel_command restaurant_id order_id) =
      confirm_cancel_ticket repository restaurant_id order_id >> pure none
  handle_ticket_command (undo_begin_cancel_command restaurant_id order_id) =
      undo_cancel_ticket repository restaurant_id order_id >> pure none
  handle_ticket_command (begin_revise_command restaurant_id order_id items) =
      begin_revise repository restaurant_id order_id items >> pure none
  handle_ticket_command (confirm_revise_command restaurant_id order_id items) =
      confirm_revise repository restaurant_id order_id items >> pure none
  handle_ticket_command (undo_begin_revise_command restaurant_id order_id) =
      undo_begin_revise repository restaurant_id order_id >> pure none
