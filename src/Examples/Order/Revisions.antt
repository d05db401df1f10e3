-- ===== src/Examples/Order/Revisions.antt =====
-- Revisions of examples/ftgo-app/services/order/entities/order.entity.ts.
use nest_convoy.Prelude.{
  ◌≡◌, refl, sym, ap, ◌∙◌, false, List, [], ◌∷◌, Bool-cases, inl, inr, Option, none, some,
}
use nest_convoy.Prelude.Result.{ok-injective, Result, ok, err}
use nest_convoy.Prelude.Effect.{state-eq, ◌>>◌, pure, lift, resume, ok-err}
use nest_convoy.Common.Exceptions.{
  order_minimum_not_met, unsupported_state_transition, illegal_argument,
}
use nest_convoy.Examples.Money.{Numbers, is_greater_than_or_equal}
use nest_convoy.Examples.LineItems.{
  OrderLineItem, RevisedOrderLineItem, OrderRevision, LineItemQuantityChange, Updated, updated,
  find_revised, quantity_change, update_items, update,
}
use nest_convoy.Examples.Order.{
  Order, OrderState, OrderEvent, approved, revision_pending, order_revised, order_revision_proposed,
  to_state, propose, revise_in, revise, confirm_change, confirm_in, confirm_revision, given_or_kept,
}

-- The items of an order with the quantities of a revision: the revision has each of them, and
-- nothing but the quantity changes.
abbrev pub Requantified :
    {F : Type 0} ⦃numbers : Numbers F⦄
    → List (RevisedOrderLineItem F)
    → List (OrderLineItem F)
    → List (OrderLineItem F)
    → Type 0
Requantified {F} rs [] items' = items' ≡ []
Requantified {F} rs (li ∷ items) items' =
    (r : RevisedOrderLineItem F) × (rest : List (OrderLineItem F)) × (find_revised li.menu_item_id
        rs
      ≡ some r)
    × (items' ≡ record li { quantity = r.quantity } ∷ rest)
    × Requantified rs items rest

module _ {F : Type 0} ⦃numbers : Numbers F⦄ where
  updated-ok :
      (li : OrderLineItem F) (items items' : List (OrderLineItem F)) (rest : Updated F)
      (o : Option (RevisedOrderLineItem F))
      → updated li items rest o ≡ (ok tt, items')
      → (r : RevisedOrderLineItem F) × (o ≡ some r)
        × (rest.0 ≡ ok tt)
        × (items' ≡ record li { quantity = r.quantity } ∷ rest.1)
  updated-ok li items items' rest none h =
      absurd (ok-err tt illegal_argument items' (li ∷ items) (sym h))
  updated-ok li items items' rest (some r) h =
      (r, refl, ap (λ (u : Updated F). u.0) h, sym (ap (λ (u : Updated F). u.1) h))

  update_items-Requantified :
      (rs : List (RevisedOrderLineItem F)) (items items' : List (OrderLineItem F))
      → update_items rs items ≡ (ok tt, items')
      → Requantified rs items items'
  unfolding update_items
  update_items-Requantified rs [] items' h = sym (ap (λ (u : Updated F). u.1) h)
  update_items-Requantified rs (li ∷ items) items' h =
      let (r, found, done, e) =
        updated-ok li items items' (update_items rs items) (find_revised li.menu_item_id rs) h in
      (
        r,
        (update_items rs items).1,
        found,
        e,
        update_items-Requantified rs items (update_items rs items).1
            (ap (λ (x : Result (Unit {0})). (x, (update_items rs items).1)) done),
      )

module _ {F : Type 0} ⦃numbers : Numbers F⦄ (revision : OrderRevision F) (o o' : Order F) where
  -- What a proposal that was not thrown at says.
  propose-ok :
      {change : LineItemQuantityChange F} {events : List (OrderEvent F)}
      (c : LineItemQuantityChange F)
      → propose revision c o ≡ (ok (change, events), o')
      → (c ≡ change)
        × (is_greater_than_or_equal c.new_order_total o.minimum ≡ false)
        × (o' ≡ record o { state = revision_pending })
        × (events ≡ order_revision_proposed revision c.current_order_total c.new_order_total ∷ [])
  unfolding propose
  propose-ok {change} {events} c h =
      elim (Bool-cases (is_greater_than_or_equal c.new_order_total o.minimum)) [
        | inl enough ↦
            absurd (ok-err (change, events) order_minimum_not_met o' o (sym (rw enough at h)))
        | inr below ↦ go below (rw below at h)
      ]
    where
      announced : List (OrderEvent F)
      announced = order_revision_proposed revision c.current_order_total c.new_order_total ∷ []

      go :
          is_greater_than_or_equal c.new_order_total o.minimum ≡ false
          → (to_state revision_pending
                >> pure {A = LineItemQuantityChange F × List (OrderEvent F)} (c, announced))
              o
            ≡ (ok (change, events), o')
          → (c ≡ change)
            × (is_greater_than_or_equal c.new_order_total o.minimum ≡ false)
            × (o' ≡ record o { state = revision_pending })
            × (events ≡ announced)
      go below q =
          let same =
            ok-injective (c, announced) (change, events)
              (ap (λ (p : Result (LineItemQuantityChange F × List (OrderEvent F)) × Order F). p.0)
                q) in
          (
            ap (λ (p : LineItemQuantityChange F × List (OrderEvent F)). p.0) same,
            below,
            sym (state-eq _ (ok (change, events)) o' q),
            sym (ap (λ (p : LineItemQuantityChange F × List (OrderEvent F)). p.1) same),
          )

  -- A revision that was proposed.
  abbrev Proposed : LineItemQuantityChange F → List (OrderEvent F) → Type 0
  Proposed change events =
      (quantity_change revision o.details.line_items ≡ ok change)
      × (is_greater_than_or_equal change.new_order_total o.minimum ≡ false)
      × (o' ≡ record o { state = revision_pending })
      × (events
          ≡ order_revision_proposed revision change.current_order_total change.new_order_total ∷ [])

  revise_in-ok :
      (st : OrderState) {change : LineItemQuantityChange F} {events : List (OrderEvent F)}
      → revise_in st revision o ≡ (ok (change, events), o')
      → Proposed change events
  unfolding revise_in
  revise_in-ok approved {change} {events} h =
      go (quantity_change revision o.details.line_items) refl h
    where
      go :
          (r : Result (LineItemQuantityChange F))
          → quantity_change revision o.details.line_items ≡ r
          → resume (propose revision) r o ≡ (ok (change, events), o')
          → Proposed change events
      go (ok c) e q =
          let (same, below, st, announced) = propose-ok c q in
          (
            e ∙ ap ok same,
            ap
                  (λ (x : LineItemQuantityChange F).
                    is_greater_than_or_equal x.new_order_total o.minimum)
                  (sym same)
                ∙ below,
            st,
            announced
                ∙ ap
                    (λ (x : LineItemQuantityChange F).
                      order_revision_proposed revision x.current_order_total x.new_order_total ∷ [])
                    same,
          )
      go (err x) e q = absurd (ok-err (change, events) x o' o (sym q))
  revise_in-ok _ {change} {events} h =
      absurd (ok-err (change, events) unsupported_state_transition o' o (sym h))

  -- A revision that was confirmed.
  abbrev Confirmed : List (OrderEvent F) → Type 0
  Confirmed events =
      (c : LineItemQuantityChange F) × (quantity_change revision o.details.line_items ≡ ok c)
      × (events ≡ order_revised revision c.current_order_total c.new_order_total ∷ [])
      × (o'.state ≡ approved)
      × (o'.minimum ≡ o.minimum)
      × (update revision o.details.line_items ≡ (ok tt, o'.details.line_items))

  confirm_in-ok :
      (st : OrderState) {events : List (OrderEvent F)}
      → confirm_in st revision o ≡ (ok events, o')
      → Confirmed events
  unfolding confirm_in
  confirm_in-ok revision_pending {events} h =
      changed (quantity_change revision o.details.line_items) refl h
    where
      items_updated :
          (c : LineItemQuantityChange F) (u : Result (Unit {0}) × List (OrderLineItem F))
          → quantity_change revision o.details.line_items ≡ ok c
          → update revision o.details.line_items ≡ u
          → (lift u.0
                >> to_state approved
                >> pure {A = List (OrderEvent F)}
                    (order_revised revision c.current_order_total c.new_order_total ∷ []))
              (record o {
                delivery_info = given_or_kept revision.delivery_info o.delivery_info;
                details = record o.details { line_items = u.1 };
              })
            ≡ (ok events, o')
          → Confirmed events
      items_updated c (ok v, items) counted e q =
          let after = state-eq _ (ok events) o' q in
          (
            c,
            counted,
            sym (
                ok-injective _ events (ap (λ (p : Result (List (OrderEvent F)) × Order F). p.0) q)),
            ap (λ (x : Order F). x.state) (sym after),
            ap (λ (x : Order F). x.minimum) (sym after),
            e ∙ ap (λ (x : Order F). pure tt x.details.line_items) after,
          )
      items_updated c (err x, items) counted e q = absurd (ok-err events x o' _ (sym q))

      changed :
          (r : Result (LineItemQuantityChange F))
          → quantity_change revision o.details.line_items ≡ r
          → resume (confirm_change revision) r o ≡ (ok events, o')
          → Confirmed events
      changed (ok c) e q =
          items_updated c (update revision o.details.line_items) e refl (unfold confirm_change in q)
      changed (err x) e q = absurd (ok-err events x o' o (sym q))
  confirm_in-ok _ {events} h = absurd (ok-err events unsupported_state_transition o' o (sym h))

module _ {F : Type 0} ⦃numbers : Numbers F⦄ where
  -- Whatever the arithmetic of amounts is: an order whose revision was proposed and then confirmed
  -- is approved, and its items are those it had with the quantities of the revision. Both events
  -- announce the same totals, those of the change that was computed for the proposal, and the new
  -- total does not reach the order's minimum: `revise` throws where it does.
  pub revised_below_minimum :
      (revision : OrderRevision F) (o o₁ o₂ : Order F) {change : LineItemQuantityChange F}
      {proposed revised : List (OrderEvent F)}
      → revise revision o ≡ (ok (change, proposed), o₁)
      → confirm_revision revision o₁ ≡ (ok revised, o₂)
      → (o₂.state ≡ approved)
        × Requantified revision.revised_order_line_items o.details.line_items o₂.details.line_items
        × (proposed
            ≡ order_revision_proposed revision change.current_order_total change.new_order_total
              ∷ [])
        × (revised ≡ order_revised revision change.current_order_total change.new_order_total ∷ [])
        × (is_greater_than_or_equal change.new_order_total o₂.minimum ≡ false)
  unfolding revise confirm_revision update
  revised_below_minimum revision o o₁ o₂ {change} {proposed} {revised} before after =
      let (counted, below, pending, announced) = revise_in-ok revision o o₁ o.state before in
      let (c, recounted, told, st, kept, done) = confirm_in-ok revision o₁ o₂ o₁.state after in
      let items : o₁.details.line_items ≡ o.details.line_items =
        ap (λ (x : Order F). x.details.line_items) pending in
      let minimum : o₂.minimum ≡ o.minimum = kept ∙ ap (λ (x : Order F). x.minimum) pending in
      let same : c ≡ change =
        ok-injective c change (sym recounted ∙ ap (quantity_change revision) items ∙ counted) in
      (
        st,
        update_items-Requantified revision.revised_order_line_items o.details.line_items
            o₂.details.line_items
            (ap (update_items revision.revised_order_line_items) (sym items) ∙ done),
        announced,
        told
            ∙ ap
                (λ (x : LineItemQuantityChange F).
                  order_revised revision x.current_order_total x.new_order_total ∷ [])
                same,
        ap (is_greater_than_or_equal change.new_order_total) minimum ∙ below,
      )
