-- ===== src/Examples/Customer/Credit.antt =====
-- The credit of a customer of examples/sagas-customers-orders.
use nest_convoy.Prelude.{ℕ, ◌≡◌, true, List, [], ◌∷◌}
use nest_convoy.Examples.Money.{Numbers, Money, nothing, subtract, is_greater_than_or_equal}
use nest_convoy.Examples.Customer.{CreditReservation, Customer, total_reserved, reserve_credit}

module _ {F : Type 0} ⦃numbers : Numbers F⦄ where
  -- Each of the reservations `rs` was covered by what the ones before it, `total` in all, left of the
  -- limit.
  abbrev pub AllCovered : Money F → Money F → List (CreditReservation F) → Type 0
  AllCovered limit total [] = Unit {0}
  AllCovered limit total (r ∷ rs) =
      (is_greater_than_or_equal (subtract limit total) r.amount ≡ true)
      × AllCovered limit (total_reserved total (r ∷ [])) rs

  -- Orders one after another; what one throws does not keep the next from being tried.
  abbrev pub reserve_all : List (ℕ × Money F) → Customer F → Customer F
  reserve_all [] c = c
  reserve_all ((order_id, total) ∷ orders) c =
      reserve_all orders (reserve_credit order_id total c).1

  abbrev pub Covered : Customer F → Type 0
  Covered c = AllCovered c.credit_limit nothing c.credit_reservations
