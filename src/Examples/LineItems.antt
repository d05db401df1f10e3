-- ===== src/Examples/LineItems.antt =====
-- examples/ftgo-app/services/order/entities: order-line-item.entity.ts and
-- order-line-items.entity.ts, and the models of examples/ftgo-app/libs/common that they use. An
-- item's name and row are not read. The items are objects that a method changes in place; the list
-- of them is the state.
use nest_convoy.Examples.Money.{Numbers}
use nest_convoy.Prelude.{ℕ, Option, none, some, List, [], ◌∷◌, map, find, nat_eq, String}
use nest_convoy.Prelude.Result.{Result, ok, err, ◌>>=◌}
use nest_convoy.Prelude.Effect.{M}
use nest_convoy.Common.Exceptions.{type_error, illegal_argument}
use nest_convoy.Examples.Money.{Money, nothing, add, multiply}

pub record OrderLineItem (F : Type 0) : Type 0 where
  pub menu_item_id : ℕ
  pub price : Money F
  pub quantity : F

pub record RevisedOrderLineItem (F : Type 0) : Type 0 where
  pub menu_item_id : ℕ
  pub quantity : F

pub record Address : Type 0 where
  pub street1 : String
  pub street2 : String
  pub city : String
  pub state : String
  pub zip : String

pub record DeliveryInfo : Type 0 where
  pub time : ℕ
  pub address : Address

pub record OrderRevision (F : Type 0) : Type 0 where
  pub revised_order_line_items : List (RevisedOrderLineItem F)
  pub delivery_info : Option DeliveryInfo

pub record LineItemQuantityChange (F : Type 0) : Type 0 where
  pub current_order_total : Money F
  pub new_order_total : Money F
  pub delta : Money F

module _ {F : Type 0} ⦃numbers : Numbers F⦄ where
  unfoldable pub total : OrderLineItem F → Money F
  total li = multiply li.price li.quantity

  unfoldable pub delta_for_changed_quantity : F → OrderLineItem F → Money F
  delta_for_changed_quantity quantity li = multiply li.price (numbers.minus quantity li.quantity)

  -- `reduce` by `add`.
  unfoldable pub sum_from : Money F → List (Money F) → Money F
  sum_from acc [] = acc
  sum_from acc (x ∷ xs) = sum_from (add acc x) xs

  unfoldable pub order_total : List (OrderLineItem F) → Money F
  unfolding sum_from total
  order_total items = sum_from nothing (map total items)

  unfoldable pub find_one : ℕ → List (OrderLineItem F) → Option (OrderLineItem F)
  find_one id items = find (λ (li : OrderLineItem F). nat_eq li.menu_item_id id) items

  abbrev pub delta_of : F → Option (OrderLineItem F) → Result (Money F)
  delta_of quantity none = err type_error
  delta_of quantity (some li) = ok (delta_for_changed_quantity quantity li)

  -- The `map` over the revised items: one that the order does not have is undefined.
  unfoldable pub deltas :
      List (RevisedOrderLineItem F) → List (OrderLineItem F) → Result (List (Money F))
  unfolding find_one delta_for_changed_quantity
  deltas [] items = ok []
  deltas (r ∷ rs) items = do
    delta ← delta_of r.quantity (find_one r.menu_item_id items)
    rest ← deltas rs items
    ok (delta ∷ rest)

  unfoldable pub change_to_order_total : OrderRevision F → List (OrderLineItem F) → Result (Money F)
  unfolding deltas sum_from
  change_to_order_total revision items =
      deltas revision.revised_order_line_items items >>= λ ds. ok (sum_from nothing ds)

  unfoldable pub quantity_change :
      OrderRevision F → List (OrderLineItem F) → Result (LineItemQuantityChange F)
  unfolding change_to_order_total order_total
  quantity_change revision items = do
    delta ← change_to_order_total revision items
    ok (record {
      current_order_total = order_total items;
      new_order_total = add (order_total items) delta;
      delta = delta;
    })

  unfoldable pub find_revised : ℕ → List (RevisedOrderLineItem F) → Option (RevisedOrderLineItem F)
  find_revised id revised = find (λ (r : RevisedOrderLineItem F). nat_eq r.menu_item_id id) revised

abbrev pub Updated : Type 0 → Type 0
Updated F = Result (Unit {0}) × List (OrderLineItem F)

module _ {F : Type 0} ⦃numbers : Numbers F⦄ where
  abbrev pub updated :
      OrderLineItem F
      → List (OrderLineItem F)
      → Updated F
      → Option (RevisedOrderLineItem F)
      → Updated F
  updated li items rest none = (err illegal_argument, li ∷ items)
  updated li items rest (some r) = (rest.0, record li { quantity = r.quantity } ∷ rest.1)

  -- The items before one that was not revised keep their new quantities.
  unfoldable pub update_items :
      List (RevisedOrderLineItem F) → M (List (OrderLineItem F)) (Unit {0})
  unfolding find_revised
  update_items revised [] = (ok tt, [])
  update_items revised (li ∷ items) =
      updated li items (update_items revised items) (find_revised li.menu_item_id revised)

  unfoldable pub update : OrderRevision F → M (List (OrderLineItem F)) (Unit {0})
  unfolding update_items
  update revision = update_items revision.revised_order_line_items
