-- ===== src/Examples/Ticket.antt =====
-- examples/ftgo-app/services/kitchen/entities/ticket.entity.ts: the states of a ticket. A date is a
-- number, and the clock an argument; the line items are not touched by the methods, and the state
-- that an `UnsupportedStateTransitionException` carries is that of the ticket.
pub mod Progress
pub mod Tests
use nest_convoy.Prelude.{ℕ, Option, none, some, List, [], ◌∷◌, ◌≡◌, refl}
use nest_convoy.Prelude.Result.{Result, ok, err}
use nest_convoy.Prelude.Effect.{M}
use nest_convoy.Common.Exceptions.{unsupported_state_transition}

pub data TicketState : Type 0 where
  create_pending awaiting_acceptance accepted preparing ready_for_pickup picked_up : TicketState
  cancel_pending cancelled revision_pending : TicketState
  -- the `null` of a column
  no_state : TicketState

pub record Ticket : Type 0 where
  pub state : TicketState
  pub previous_state : Option TicketState
  pub ready_by : Option ℕ
  pub accept_time : Option ℕ
  pub preparing_time : Option ℕ
  pub picked_up_time : Option ℕ
  pub ready_for_pickup_time : Option ℕ

pub data TicketEvent : Type 0 where
  ticket_created ticket_preparation_started ticket_preparation_completed : TicketEvent
  ticket_picked_up ticket_cancelled ticket_revised : TicketEvent
  ticket_accepted : ℕ → TicketEvent

abbrev pub Outcome : Type 0
Outcome = Result (List TicketEvent) × Ticket

abbrev refused : Ticket → Outcome
refused t = (err unsupported_state_transition, t)

-- `this.state = this.previousState`.
abbrev pub back : Option TicketState → TicketState
back none = no_state
back (some p) = p

unfoldable pub confirm_create : M Ticket (List TicketEvent)
confirm_create t = elim t.state [
  | create_pending ↦ (ok (ticket_created ∷ []), record t { state = awaiting_acceptance })
  | _ ↦ refused t
]

unfoldable pub cancel_create : M Ticket (List TicketEvent)
cancel_create t = (ok [], t)

-- The exception for a date that is not later is made and not thrown.
unfoldable pub accept : ℕ → ℕ → M Ticket (List TicketEvent)
accept now date t = elim t.state [
  | awaiting_acceptance ↦ (
    ok (ticket_accepted date ∷ []),
    record t { state = accepted; accept_time = some now; ready_by = some date },
  )
  | _ ↦ refused t
]

unfoldable pub prepare : ℕ → M Ticket (List TicketEvent)
prepare now t = elim t.state [
  | accepted ↦ (
    ok (ticket_preparation_started ∷ []),
    record t { state = preparing; preparing_time = some now },
  )
  | _ ↦ refused t
]

unfoldable pub make_ready : ℕ → M Ticket (List TicketEvent)
make_ready now t = elim t.state [
  | preparing ↦ (
    ok (ticket_preparation_completed ∷ []),
    record t { state = ready_for_pickup; ready_for_pickup_time = some now },
  )
  | _ ↦ refused t
]

unfoldable pub pick_up : ℕ → M Ticket (List TicketEvent)
pick_up now t = elim t.state [
  | ready_for_pickup ↦
      (ok (ticket_picked_up ∷ []), record t { state = picked_up; picked_up_time = some now })
  | _ ↦ refused t
]

unfoldable pub change_line_item_quantity : M Ticket (List TicketEvent)
change_line_item_quantity t = elim t.state [
  | awaiting_acceptance ↦ (ok [], t)
  | preparing ↦ (ok [], t)
  | _ ↦ refused t
]

unfoldable pub cancel : M Ticket (List TicketEvent)
cancel t = elim t.state [
  | awaiting_acceptance ↦
      (ok [], record t { state = cancel_pending; previous_state = some awaiting_acceptance })
  | accepted ↦ (ok [], record t { state = cancel_pending; previous_state = some accepted })
  | _ ↦ refused t
]

unfoldable pub confirm_cancel : M Ticket (List TicketEvent)
confirm_cancel t = elim t.state [
  | cancel_pending ↦ (ok (ticket_cancelled ∷ []), record t { state = cancelled })
  | _ ↦ refused t
]

unfoldable pub undo_cancel : M Ticket (List TicketEvent)
undo_cancel t = elim t.state [
  | cancel_pending ↦ (ok [], record t { state = back t.previous_state })
  | _ ↦ refused t
]

unfoldable pub begin_revise_order : M Ticket (List TicketEvent)
begin_revise_order t = elim t.state [
  | awaiting_acceptance ↦
      (ok [], record t { state = revision_pending; previous_state = some awaiting_acceptance })
  | accepted ↦ (ok [], record t { state = revision_pending; previous_state = some accepted })
  | _ ↦ refused t
]

unfoldable pub undo_begin_revise_order : M Ticket (List TicketEvent)
undo_begin_revise_order t = elim t.state [
  | revision_pending ↦ (ok [], record t { state = back t.previous_state })
  | _ ↦ refused t
]

unfoldable pub confirm_revise_ticket : M Ticket (List TicketEvent)
confirm_revise_ticket t = elim t.state [
  | revision_pending ↦ (ok (ticket_revised ∷ []), record t { state = back t.previous_state })
  | _ ↦ refused t
]

-- A call of a method; the numbers are what the clock says and the arguments.
pub data Call : Type 0 where
  to_confirm_create to_cancel_create to_change to_cancel to_confirm_cancel to_undo_cancel : Call
  to_begin_revise to_undo_revise to_confirm_revise : Call
  to_accept : ℕ → ℕ → Call
  to_prepare to_make_ready to_pick_up : ℕ → Call

unfoldable pub call : Call → M Ticket (List TicketEvent)
unfolding confirm_create cancel_create accept prepare make_ready pick_up change_line_item_quantity
    cancel confirm_cancel undo_cancel begin_revise_order undo_begin_revise_order
    confirm_revise_ticket
call to_confirm_create = confirm_create
call to_cancel_create = cancel_create
call to_change = change_line_item_quantity
call to_cancel = cancel
call to_confirm_cancel = confirm_cancel
call to_undo_cancel = undo_cancel
call to_begin_revise = begin_revise_order
call to_undo_revise = undo_begin_revise_order
call to_confirm_revise = confirm_revise_ticket
call (to_accept now date) = accept now date
call (to_prepare now) = prepare now
call (to_make_ready now) = make_ready now
call (to_pick_up now) = pick_up now

-- Calls one after another; what one throws does not keep the next from being made.
unfoldable pub run_calls : List Call → Ticket → Ticket
unfolding call
run_calls [] t = t
run_calls (c ∷ cs) t = run_calls cs (call c t).1
