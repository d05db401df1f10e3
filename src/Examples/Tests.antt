-- ===== src/Examples/Tests.antt =====
-- An order, its revision and the credit of a customer at concrete inputs, with whole numbers.
use nest_convoy.Prelude.{◌≡◌, refl, false, none, List, [], ◌∷◌, ◌+◌}
use Prim.Native.Nat.{◌*◌}
use nest_convoy.Prelude.Int.{ℤ, pos, ◌+ℤ◌, ◌-ℤ◌, leb_ℤ, sub_ℕ, pos_part, neg_part}
use nest_convoy.Prelude.Result.{ok}
use nest_convoy.Examples.Money.{Numbers, Money, add, subtract, multiply, is_greater_than_or_equal}
use nest_convoy.Examples.LineItems.{
  OrderLineItem, OrderRevision, LineItemQuantityChange, order_total, quantity_change, update,
  find_one, find_revised, change_to_order_total, deltas, sum_from, total,
  delta_for_changed_quantity, update_items,
}
use nest_convoy.Examples.Order.{
  Order, approved, revision_pending, order_revision_proposed, order_revised, revise, revise_in,
  propose, confirm_revision, confirm_in, confirm_change,
}
use nest_convoy.Examples.Order.Revisions.{Requantified, revised_below_minimum}
use nest_convoy.Examples.Customer.{Customer}

instance whole : Numbers ℤ
whole = record {
  zero = pos 0;
  plus = λ a b. a +ℤ b;
  minus = λ a b. a -ℤ b;
  times = λ a b.
      sub_ℕ (pos_part a * pos_part b + neg_part a * neg_part b)
        (pos_part a * neg_part b + neg_part a * pos_part b);
  at_least = λ a b. leb_ℤ b a;
}

abbrev euros : ℤ → Money ℤ
euros n = record { amount = n }

abbrev items : List (OrderLineItem ℤ)
items =
    record { menu_item_id = 1; price = euros (pos 4); quantity = pos 2 }
    ∷ record { menu_item_id = 2; price = euros (pos 3); quantity = pos 1 }
    ∷ []

abbrev revised_items : List (OrderLineItem ℤ)
revised_items =
    record { menu_item_id = 1; price = euros (pos 4); quantity = pos 1 }
    ∷ record { menu_item_id = 2; price = euros (pos 3); quantity = pos 3 }
    ∷ []

abbrev revision : OrderRevision ℤ
revision = record {
  revised_order_line_items =
      record { menu_item_id = 2; quantity = pos 3 }
      ∷ record { menu_item_id = 1; quantity = pos 1 }
      ∷ [];
  delivery_info = none;
}

abbrev change : LineItemQuantityChange ℤ
change = record {
  current_order_total = euros (pos 11);
  new_order_total = euros (pos 13);
  delta = euros (pos 2);
}

abbrev order : Order ℤ
order = record {
  id = 7;
  details = record {
    customer_id = 1;
    restaurant_id = 2;
    total = euros (pos 11);
    line_items = items;
  };
  state = approved;
  delivery_info = none;
  minimum = euros (pos 20);
}

abbrev pending_order : Order ℤ
pending_order = record order { state = revision_pending }

abbrev revised_order : Order ℤ
revised_order = record order {
  details = record {
    customer_id = 1;
    restaurant_id = 2;
    total = euros (pos 11);
    line_items = revised_items;
  };
}

proposed : revise revision order ≡ (
  ok (change, order_revision_proposed revision (euros (pos 11)) (euros (pos 13)) ∷ []),
  pending_order,
)
unfolding whole revise revise_in propose is_greater_than_or_equal quantity_change
    change_to_order_total deltas find_one delta_for_changed_quantity sum_from order_total total add
    subtract multiply
proposed = refl

confirmed :
    confirm_revision revision pending_order
    ≡ (ok (order_revised revision (euros (pos 11)) (euros (pos 13)) ∷ []), revised_order)
unfolding whole confirm_revision confirm_in confirm_change quantity_change change_to_order_total
    deltas find_one delta_for_changed_quantity sum_from order_total total add subtract multiply
    update update_items find_revised
confirmed = refl

revised_below_minimum_example :
    (approved ≡ approved)
    × Requantified revision.revised_order_line_items items revised_items
    × (order_revision_proposed revision (euros (pos 11)) (euros (pos 13)) ∷ []
        ≡ order_revision_proposed revision (euros (pos 11)) (euros (pos 13)) ∷ [])
    × (order_revised revision (euros (pos 11)) (euros (pos 13)) ∷ []
        ≡ order_revised revision (euros (pos 11)) (euros (pos 13)) ∷ [])
    × (is_greater_than_or_equal (euros (pos 13)) (euros (pos 20)) ≡ false)
revised_below_minimum_example =
    revised_below_minimum revision order pending_order revised_order proposed confirmed

abbrev customer : Customer ℤ
customer = record {
  id = 1;
  name = "Ada";
  credit_limit = euros (pos 10);
  credit_reservations = record { order_id = 4; amount = euros (pos 3) } ∷ [];
}
