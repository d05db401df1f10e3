-- ===== src/Examples/Ticket/Progress.antt =====
-- examples/ftgo-app/services/kitchen/entities/ticket.entity.ts: what calls in any order lead to.
use nest_convoy.Prelude.{ℕ, Option, some, List, [], ◌∷◌, ◌++◌, ◌≡◌, refl, sym, subst}
use nest_convoy.Examples.Ticket.{
  Ticket, TicketState, create_pending, awaiting_acceptance, accepted, preparing, ready_for_pickup,
  picked_up, cancel_pending, cancelled, revision_pending, no_state, back, Call, call, run_calls,
  to_confirm_create, to_cancel_create, to_change, to_cancel, to_confirm_cancel, to_undo_cancel,
  to_begin_revise, to_undo_revise, to_confirm_revise, to_accept, to_prepare, to_make_ready,
  to_pick_up, confirm_create, cancel_create, accept, prepare, make_ready, pick_up,
  change_line_item_quantity, cancel, confirm_cancel, undo_cancel, begin_revise_order,
  undo_begin_revise_order, confirm_revise_ticket,
}

-- The states that a ticket goes back to.
abbrev pub IsKept : Option TicketState → Type 0
IsKept (some awaiting_acceptance) = Unit {0}
IsKept (some accepted) = Unit {0}
IsKept _ = ⊥

-- A ticket that waits for the end of a cancellation or of a revision knows where it came from.
abbrev pub IsConsistent : TicketState → Option TicketState → Type 0
IsConsistent cancel_pending p = IsKept p
IsConsistent revision_pending p = IsKept p
IsConsistent no_state p = ⊥
IsConsistent _ p = Unit {0}

abbrev pub Consistent : Ticket → Type 0
Consistent t = IsConsistent t.state t.previous_state

abbrev ticket : TicketState → Option TicketState → Ticket → Ticket
ticket s p t = record t { state = s; previous_state = p }

back-IsConsistent : (p : Option TicketState) → IsKept p → IsConsistent (back p) p
back-IsConsistent (some awaiting_acceptance) k = tt
back-IsConsistent (some accepted) k = tt
back-IsConsistent _ k = elim k [ ]

confirm_create-Consistent :
    (s : TicketState) (p : Option TicketState) (t : Ticket)
    → IsConsistent s p
    → Consistent (confirm_create (ticket s p t)).1
unfolding confirm_create
confirm_create-Consistent create_pending p t h = tt
confirm_create-Consistent _ p t h = h

cancel-Consistent :
    (s : TicketState) (p : Option TicketState) (t : Ticket)
    → IsConsistent s p
    → Consistent (cancel (ticket s p t)).1
unfolding cancel
cancel-Consistent awaiting_acceptance p t h = tt
cancel-Consistent accepted p t h = tt
cancel-Consistent _ p t h = h

accept-Consistent :
    (now date : ℕ) (s : TicketState) (p : Option TicketState) (t : Ticket)
    → IsConsistent s p
    → Consistent (accept now date (ticket s p t)).1
unfolding accept
accept-Consistent now date awaiting_acceptance p t h = tt
accept-Consistent now date _ p t h = h

prepare-Consistent :
    (now : ℕ) (s : TicketState) (p : Option TicketState) (t : Ticket)
    → IsConsistent s p
    → Consistent (prepare now (ticket s p t)).1
unfolding prepare
prepare-Consistent now accepted p t h = tt
prepare-Consistent now _ p t h = h

make_ready-Consistent :
    (now : ℕ) (s : TicketState) (p : Option TicketState) (t : Ticket)
    → IsConsistent s p
    → Consistent (make_ready now (ticket s p t)).1
unfolding make_ready
make_ready-Consistent now preparing p t h = tt
make_ready-Consistent now _ p t h = h

pick_up-Consistent :
    (now : ℕ) (s : TicketState) (p : Option TicketState) (t : Ticket)
    → IsConsistent s p
    → Consistent (pick_up now (ticket s p t)).1
unfolding pick_up
pick_up-Consistent now ready_for_pickup p t h = tt
pick_up-Consistent now _ p t h = h

change_line_item_quantity-Consistent :
    (s : TicketState) (p : Option TicketState) (t : Ticket)
    → IsConsistent s p
    → Consistent (change_line_item_quantity (ticket s p t)).1
unfolding change_line_item_quantity
change_line_item_quantity-Consistent awaiting_acceptance p t h = h
change_line_item_quantity-Consistent preparing p t h = h
change_line_item_quantity-Consistent _ p t h = h

confirm_cancel-Consistent :
    (s : TicketState) (p : Option TicketState) (t : Ticket)
    → IsConsistent s p
    → Consistent (confirm_cancel (ticket s p t)).1
unfolding confirm_cancel
confirm_cancel-Consistent cancel_pending p t h = tt
confirm_cancel-Consistent _ p t h = h

undo_cancel-Consistent :
    (s : TicketState) (p : Option TicketState) (t : Ticket)
    → IsConsistent s p
    → Consistent (undo_cancel (ticket s p t)).1
unfolding undo_cancel
undo_cancel-Consistent cancel_pending p t h = back-IsConsistent p h
undo_cancel-Consistent _ p t h = h

begin_revise_order-Consistent :
    (s : TicketState) (p : Option TicketState) (t : Ticket)
    → IsConsistent s p
    → Consistent (begin_revise_order (ticket s p t)).1
unfolding begin_revise_order
begin_revise_order-Consistent awaiting_acceptance p t h = tt
begin_revise_order-Consistent accepted p t h = tt
begin_revise_order-Consistent _ p t h = h

undo_begin_revise_order-Consistent :
    (s : TicketState) (p : Option TicketState) (t : Ticket)
    → IsConsistent s p
    → Consistent (undo_begin_revise_order (ticket s p t)).1
unfolding undo_begin_revise_order
undo_begin_revise_order-Consistent revision_pending p t h = back-IsConsistent p h
undo_begin_revise_order-Consistent _ p t h = h

confirm_revise_ticket-Consistent :
    (s : TicketState) (p : Option TicketState) (t : Ticket)
    → IsConsistent s p
    → Consistent (confirm_revise_ticket (ticket s p t)).1
unfolding confirm_revise_ticket
confirm_revise_ticket-Consistent revision_pending p t h = back-IsConsistent p h
confirm_revise_ticket-Consistent _ p t h = h

call-Consistent : (c : Call) (t : Ticket) → Consistent t → Consistent (call c t).1
unfolding call cancel_create
call-Consistent to_confirm_create t h = confirm_create-Consistent t.state t.previous_state t h
call-Consistent to_change t h = change_line_item_quantity-Consistent t.state t.previous_state t h
call-Consistent to_cancel t h = cancel-Consistent t.state t.previous_state t h
call-Consistent to_confirm_cancel t h = confirm_cancel-Consistent t.state t.previous_state t h
call-Consistent to_undo_cancel t h = undo_cancel-Consistent t.state t.previous_state t h
call-Consistent to_begin_revise t h = begin_revise_order-Consistent t.state t.previous_state t h
call-Consistent to_undo_revise t h = undo_begin_revise_order-Consistent t.state t.previous_state t h
call-Consistent to_confirm_revise t h =
    confirm_revise_ticket-Consistent t.state t.previous_state t h
call-Consistent (to_accept now date) t h = accept-Consistent now date t.state t.previous_state t h
call-Consistent (to_prepare now) t h = prepare-Consistent now t.state t.previous_state t h
call-Consistent (to_make_ready now) t h = make_ready-Consistent now t.state t.previous_state t h
call-Consistent (to_pick_up now) t h = pick_up-Consistent now t.state t.previous_state t h
call-Consistent to_cancel_create t h = h

run_calls-Consistent : (cs : List Call) (t : Ticket) → Consistent t → Consistent (run_calls cs t)
unfolding run_calls
run_calls-Consistent [] t h = h
run_calls-Consistent (c ∷ cs) t h = run_calls-Consistent cs (call c t).1 (call-Consistent c t h)

-- The calls that lead from a state to the customer; the clock does not matter.
abbrev to_customer_accepted : List Call
to_customer_accepted = to_prepare 0 ∷ to_make_ready 0 ∷ to_pick_up 0 ∷ []

abbrev to_customer : TicketState → Option TicketState → List Call
to_customer create_pending p = to_confirm_create ∷ to_accept 0 0 ∷ to_customer_accepted
to_customer awaiting_acceptance p = to_accept 0 0 ∷ to_customer_accepted
to_customer accepted p = to_customer_accepted
to_customer preparing p = to_make_ready 0 ∷ to_pick_up 0 ∷ []
to_customer ready_for_pickup p = to_pick_up 0 ∷ []
to_customer cancel_pending (some accepted) = to_undo_cancel ∷ to_customer_accepted
to_customer cancel_pending _ = to_undo_cancel ∷ to_accept 0 0 ∷ to_customer_accepted
to_customer revision_pending (some accepted) = to_undo_revise ∷ to_customer_accepted
to_customer revision_pending _ = to_undo_revise ∷ to_accept 0 0 ∷ to_customer_accepted
to_customer _ p = []

abbrev pub IsEnd : TicketState → Type 0
IsEnd picked_up = Unit {0}
IsEnd cancelled = Unit {0}
IsEnd _ = ⊥

reaches :
    (s : TicketState) (p : Option TicketState) (t : Ticket)
    → IsConsistent s p
    → IsEnd (run_calls (to_customer s p) (ticket s p t)).state
unfolding run_calls call confirm_create accept prepare make_ready pick_up undo_cancel
    undo_begin_revise_order
reaches create_pending p t h = tt
reaches awaiting_acceptance p t h = tt
reaches accepted p t h = tt
reaches preparing p t h = tt
reaches ready_for_pickup p t h = tt
reaches picked_up p t h = tt
reaches cancelled p t h = tt
reaches no_state p t h = elim h [ ]
reaches cancel_pending (some awaiting_acceptance) t h = tt
reaches cancel_pending (some accepted) t h = tt
reaches cancel_pending _ t h = elim h [ ]
reaches revision_pending (some awaiting_acceptance) t h = tt
reaches revision_pending (some accepted) t h = tt
reaches revision_pending _ t h = elim h [ ]

run_calls-append :
    (cs ds : List Call) (t : Ticket) → run_calls (cs ++ ds) t ≡ run_calls ds (run_calls cs t)
unfolding run_calls
run_calls-append [] ds t = refl
run_calls-append (c ∷ cs) ds t = run_calls-append cs ds (call c t).1

-- No ticket is stuck: whatever calls were made of a new ticket, in whatever order, and whichever of
-- them were refused, there are calls that lead it to its end, which is that it is picked up or
-- cancelled.
pub run_calls-IsEnd :
    (cs : List Call) (t : Ticket)
    → t.state ≡ create_pending
    → (ds : List Call) × IsEnd (run_calls (cs ++ ds) t).state
run_calls-IsEnd cs t new =
    let u = run_calls cs t in
    let h = run_calls-Consistent cs t (subst (λ s. IsConsistent s t.previous_state) (sym new) tt) in
    (
      to_customer u.state u.previous_state,
      subst (λ v. IsEnd v.state) (sym (run_calls-append cs _ t))
          (reaches u.state u.previous_state u h),
    )
