-- ===== src/Examples/Ticket/Tests.antt =====
-- A ticket that the customer cancels, and its calls at concrete inputs.
use nest_convoy.Prelude.{none, List, [], ◌∷◌, ◌++◌, ◌≡◌, refl}
use nest_convoy.Prelude.Result.{ok}
use nest_convoy.Examples.Ticket.{
  Ticket, Call, create_pending, awaiting_acceptance, ticket_accepted, accept, run_calls,
  to_confirm_create, to_cancel,
}
use nest_convoy.Examples.Ticket.Progress.{IsEnd, run_calls-IsEnd}

abbrev new_ticket : Ticket
new_ticket = record {
  state = create_pending;
  previous_state = none;
  ready_by = none;
  accept_time = none;
  preparing_time = none;
  picked_up_time = none;
  ready_for_pickup_time = none;
}

-- A date in the past is accepted.
past_date :
    (accept 20 10 (record new_ticket { state = awaiting_acceptance })).0
    ≡ ok (ticket_accepted 10 ∷ [])
unfolding accept
past_date = refl

run_calls-IsEnd_example :
    (ds : List Call) × IsEnd
      (run_calls ((to_confirm_create ∷ to_cancel ∷ []) ++ ds) new_ticket).state
run_calls-IsEnd_example = run_calls-IsEnd (to_confirm_create ∷ to_cancel ∷ []) new_ticket refl
