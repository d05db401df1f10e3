-- ===== src/Examples/Customer.antt =====
-- examples/sagas-customers-orders/customers: entities/customer.entity.ts,
-- entities/credit-reservation.entity.ts, customer.service.ts and customer-command-handlers.ts. The
-- repository of customers is a parameter.
pub mod Credit
use nest_convoy.Examples.Money.{Numbers}
use nest_convoy.Prelude.{
  ℕ, String, Bool, true, false, Option, none, some, List, [], ◌∷◌, ◌++◌, if◌then◌else◌,
}
use nest_convoy.Prelude.Result.{Result, ok, err}
use nest_convoy.Prelude.Effect.{M, ◌>>=◌, ◌>>◌, pure, throw, lift, try_catch}
use nest_convoy.Common.Exceptions.{customer_credit_limit_exceeded, customer_not_found}
use nest_convoy.Examples.Money.{Money, nothing, add, subtract, is_greater_than_or_equal}

pub record CreditReservation (F : Type 0) : Type 0 where
  pub order_id : ℕ
  pub amount : Money F

pub record Customer (F : Type 0) : Type 0 where
  pub id : ℕ
  pub name : String
  pub credit_limit : Money F
  pub credit_reservations : List (CreditReservation F)

module _ {F : Type 0} ⦃numbers : Numbers F⦄ where
  -- `reduce` by `add`.
  unfoldable pub total_reserved : Money F → List (CreditReservation F) → Money F
  total_reserved total [] = total
  total_reserved total (r ∷ rs) = total_reserved (add total r.amount) rs

  unfoldable pub available_credit : Customer F → Money F
  unfolding total_reserved
  available_credit c = subtract c.credit_limit (total_reserved nothing c.credit_reservations)

  unfoldable pub reserve_credit : ℕ → Money F → M (Customer F) (Unit {0})
  reserve_credit order_id total c =
      if is_greater_than_or_equal (available_credit c) total
      then pure tt (record c {
        credit_reservations =
            c.credit_reservations ++ record { order_id = order_id; amount = total } ∷ [];
      })
      else throw customer_credit_limit_exceeded c

pub record CustomerRepository (F : Type 0) (S : Type 0) : Type 0 where
  pub find_customer : ℕ → M S (Option (Customer F))
  pub save_customer : Customer F → M S (Customer F)

module _ {S F : Type 0} ⦃numbers : Numbers F⦄ (repository : CustomerRepository F S) where
  abbrev pub found_customer : ℕ → Option (Customer F) → M S (Customer F)
  found_customer id none = throw (customer_not_found id)
  found_customer id (some c) = pure c

  -- `CustomerService.reserveCredit`.
  unfoldable pub service_reserve_credit : ℕ → ℕ → Money F → M S (Customer F)
  service_reserve_credit customer_id order_id total = do
    found ← repository.find_customer customer_id
    customer ← found_customer customer_id found
    changed ← lift (reserve_credit order_id total customer).0
    repository.save_customer (reserve_credit order_id total customer).1

  -- The handler of `ReserveCreditCommand`; the reply has the reservations.
  unfoldable pub handle_reserve_credit : ℕ → ℕ → Money F → M S (List (CreditReservation F))
  unfolding service_reserve_credit
  handle_reserve_credit customer_id order_id total = do
    customer ← service_reserve_credit customer_id order_id total
    pure customer.credit_reservations
