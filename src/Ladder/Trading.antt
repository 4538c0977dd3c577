-- ===== src/Ladder/Trading.antt =====
-- What `new_order` of matching_engine/order_ladder.H does to the other side of the market: how much is
-- traded, with which orders, and why it stops there.
use ndfex.Prelude.{
  ℕ, ◌+◌, ◌-◌, ◌<◌, ◌≤◌, ◌≡◌, refl, ap, ◌∙◌, Bool, true, false, List, [], ◌∷◌, ◌++◌, none, arith,
}
use ndfex.Prelude.Int.{ℤ}
use ndfex.Prelude.Map.{lookup}
use ndfex.Protocol.{Side}
use ndfex.Ladder.State.{Order, Ranking, greater, less, Ladder, Event, opposite, own}
use ndfex.Ladder.Operations.{new_order}
use ndfex.Ladder.Book.{IsBook}
use ndfex.Ladder.Sweep.{Swept, sweep}
use ndfex.Ladder.Sweep.Quantity.{total, traded, filled, sweep-conserves}
use ndfex.Ladder.Sweep.Priority.{Taken, stops_at, sweep-Taken, sweep-stops}
use ndfex.Ladder.Market.{Market, view, orders_of, with_orders, placed, enter, closing_events}
use ndfex.Ladder.Session.{new_order-enters}

traded-append : (es es' : List Event) → traded (es ++ es') ≡ traded es + traded es'
unfolding traded
traded-append [] es' = ground arith
traded-append (e ∷ es) es' = ground (arith, traded-append es es')

filled-append : (b : Bool) (es es' : List Event) → filled b (es ++ es') ≡ filled b es + filled b es'
unfolding filled
filled-append b [] es' = ground arith
filled-append true (e ∷ es) es' = ground (arith, filled-append true es es')
filled-append false (e ∷ es) es' = ground (arith, filled-append false es es')

orders_of-other :
    (rk : Ranking) (os : List Order) (m : Market)
    → orders_of (opposite rk) (with_orders rk os m) ≡ orders_of (opposite rk) m
orders_of-other greater os m = refl
orders_of-other less os m = refl

orders_of-with_orders :
    (rk : Ranking) (os : List Order) (m : Market) → orders_of rk (with_orders rk os m) ≡ os
orders_of-with_orders greater os m = refl
orders_of-with_orders less os m = refl

module _ (symbol id : ℕ) (side : Side) (price : ℤ) (flags before : ℕ) (m : Market) where
  abbrev swept : Swept
  swept = sweep symbol id side price (orders_of (opposite (own side)) m) before

  placed-other :
      (q : ℕ) (m' : Market)
      → orders_of (opposite (own side)) (placed id side price flags before q m')
        ≡ orders_of (opposite (own side)) m'
  placed-other q m' = ground (arith, orders_of-other (own side))

  enter-left :
      orders_of (opposite (own side)) (enter symbol id side price flags true before m).market
      ≡ swept.left
  unfolding enter
  enter-left =
      placed-other swept.quantity _ ∙ orders_of-with_orders (opposite (own side)) swept.left m

  closing-traded : (q : ℕ) → traded (closing_events symbol id side price flags true q) ≡ 0
  unfolding traded
  closing-traded q = ground arith

  closing-filled :
      (b : Bool) (q : ℕ) → filled b (closing_events symbol id side price flags true q) ≡ 0
  unfolding filled
  closing-filled true q = ground arith
  closing-filled false q = ground arith

  enter-traded :
      traded (enter symbol id side price flags true before m).events ≡ traded swept.events
  unfolding enter
  enter-traded =
      traded-append swept.events (closing_events symbol id side price flags true swept.quantity)
      ∙ ground (arith, closing-traded swept.quantity)

  enter-filled :
      (b : Bool)
      → filled b (enter symbol id side price flags true before m).events ≡ filled b swept.events
  unfolding enter
  enter-filled b =
      filled-append b swept.events (closing_events symbol id side price flags true swept.quantity)
      ∙ ground (arith, closing-filled b swept.quantity)

module _ (id : ℕ) (side : Side) (quantity : ℕ) (price : ℤ) (flags before : ℕ) (l : Ladder)
    (b : IsBook l) (fresh : lookup id l.orders ≡ none) (more : before < quantity) where
  abbrev after : Ladder
  after = (new_order id side quantity price flags before l).1

  abbrev calls : List Event
  calls = (new_order id side quantity price flags before l).2

  abbrev others : Ladder → List Order
  others x = orders_of (opposite (own side)) (view x)

  abbrev match : Swept
  match = sweep l.symbol id side price (others l) (quantity - before)

  others-left : others after ≡ match.left
  others-left =
      ap (orders_of (opposite (own side)))
        (new_order-enters id side quantity price flags before l b fresh more).shows
      ∙ enter-left l.symbol id side price flags (quantity - before) (view l)

  calls-traded : traded calls ≡ traded match.events
  calls-traded =
      ap traded (new_order-enters id side quantity price flags before l b fresh more).calls
      ∙ enter-traded l.symbol id side price flags (quantity - before) (view l)

  calls-filled : (taker : Bool) → filled taker calls ≡ filled taker match.events
  calls-filled taker =
      ap (filled taker) (new_order-enters id side quantity price flags before l b fresh more).calls
      ∙ enter-filled l.symbol id side price flags (quantity - before) (view l) taker

  -- On a well-formed ladder that does not hold the id, and with more quantity than is filled,
  -- `new_order` takes from the other side just the quantity that it reports as traded, reports as
  -- much in fills of the incoming order and as much in fills of resting orders, and trades no
  -- more than the open quantity of the incoming order.
  pub new_order-conserves :
      (traded calls + total (others after) ≡ total (others l))
      × (filled true calls ≡ traded calls)
      × (filled false calls ≡ traded calls)
      × (traded calls ≤ quantity - before)
  new_order-conserves =
      let (spent, left, takers, makers) =
        sweep-conserves l.symbol id side price (others l) (quantity - before) in
      rw (others-left, calls-traded, calls-filled true, calls-filled false)
        (left, takers, makers, omega arith)

  -- On a well-formed ladder that does not hold the id, and with more quantity than is filled,
  -- `new_order` takes orders only off the front of the other side, each within the limit price,
  -- and of at most the last one only a part.
  pub new_order-Taken : Taken side price (others l) (others after)
  new_order-Taken =
      rw others-left (sweep-Taken l.symbol id side price (others l) (quantity - before))

  -- On a well-formed ladder that does not hold the id, and with more quantity than is filled, if
  -- `new_order` trades less than the open quantity of the incoming order, then the first order
  -- that is left on the other side is past the limit price, or none is left.
  pub new_order-stops : traded calls < quantity - before → stops_at side price (others after) ≡ true
  new_order-stops some_left =
      let (spent, left, takers, makers) =
        sweep-conserves l.symbol id side price (others l) (quantity - before) in
      let some_left' : traded match.events < quantity - before = rw⁻¹ calls-traded some_left in
      ap (stops_at side price) others-left
      ∙ sweep-stops l.symbol id side price (others l) (quantity - before) (omega arith)
