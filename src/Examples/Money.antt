-- ===== src/Examples/Money.antt =====
-- examples/ftgo-app/libs/common/models/money.ts and
-- examples/sagas-customers-orders/common/money.ts. An amount is a number of the engine, a double:
-- the numbers and what the code does with them are a parameter, of which no law is assumed.
use nest_convoy.Prelude.{Bool}

pub record Numbers (F : Type 0) : Type 0 where
  pub zero : F
  pub plus : F → F → F
  pub minus : F → F → F
  pub times : F → F → F
  -- `>=`
  pub at_least : F → F → Bool

pub record Money (F : Type 0) : Type 0 where
  pub amount : F

module _ {F : Type 0} ⦃numbers : Numbers F⦄ where
  -- `new Money()`.
  abbrev pub nothing : Money F
  nothing = record { amount = numbers.zero }

  unfoldable pub add : Money F → Money F → Money F
  add a b = record { amount = numbers.plus a.amount b.amount }

  unfoldable pub subtract : Money F → Money F → Money F
  subtract a b = record { amount = numbers.minus a.amount b.amount }

  unfoldable pub multiply : Money F → F → Money F
  multiply a k = record { amount = numbers.times a.amount k }

  unfoldable pub is_greater_than_or_equal : Money F → Money F → Bool
  is_greater_than_or_equal a b = numbers.at_least a.amount b.amount
