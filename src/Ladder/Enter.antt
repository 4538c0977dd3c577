-- ===== src/Ladder/Enter.antt =====
-- `handle_new_order` and `new_order` of matching_engine/order_ladder.H: an incoming order sweeps the
-- other side, and what is left of it rests.
use mathlib.Core.List.{append-nil}
use mathlib.Core.Path.{subst}
use ndfex.Prelude.{
  ℕ, ◌-◌, ◌≤◌, ◌<◌, ◌≡◌, refl, ap, inl, inr, Bool, true, false, not, ◌&&◌, List, [], ◌++◌, none,
  arith, ltb, Bool-cases,
}
use ndfex.Prelude.Int.{ℤ}
use ndfex.Prelude.Map.{lookup, insert, lookup-insert}
use ndfex.Protocol.{Side, is_ioc}
use ndfex.Ladder.State.{
  Action, symbol-with_side, orders-with_side, Event, Order, own, opposite, levels, Ladder,
  with_side, ok,
}
use ndfex.Ladder.Operations.{add_order, rest_order, handle_new_order}
use ndfex.Ladder.Book.{same_ranking_refl, IsBook, Keeps}
use ndfex.Ladder.Book.Frame.{off_side}
use ndfex.Ladder.Sweep.{Swept, sweep, sweep-le}
use ndfex.Ladder.Refine.{Matches, match_levels-sweep}
use ndfex.Ladder.Rest.{insert_order, add_order-queue_up}
use ndfex.Ladder.Rest.Resting.{queue_up-IsLevels, resting-queue_up}
use ndfex.Ladder.Rest.Listed.{queue_up-IsListed}
use ndfex.Ladder.Market.{
  Market, view, orders_of, with_orders, Yields, one_side-IsBook, one_side-view, IsBook-levels,
  IsBook-IsListed, orders_of-view, with_side_self, Entered, enter, placed, closing_events,
  new_order_of,
}

-- Resting an order under a fresh id.
module _ (o : Order) (l : Ladder) (b : IsBook l) (fresh : lookup o.order_id l.orders ≡ none)
    (some_quantity : 0 < o.quantity) where
  insert-across : Keeps (off_side (own o.side)) l.orders (insert o.order_id o l.orders)
  insert-across j x e off = ground (arith, lookup-insert o.order_id j o l.orders)

  insert-back : Keeps (off_side (own o.side)) (insert o.order_id o l.orders) l.orders
  insert-back j x e off =
      ground (arith, lookup-insert o.order_id j o l.orders, same_ranking_refl (own o.side))

  add_order-Yields :
      Yields
        (add_order (own o.side) o l)
        tt
        (with_orders
          (own o.side)
          (insert_order (own o.side) o (orders_of (own o.side) (view l)))
          (view l))
        []
  add_order-Yields =
      rw
        (rw (with_side_self (own o.side) l) at (
          add_order-queue_up (own o.side) o l.orders (levels (own o.side) l) l
            (IsBook-levels (own o.side) l b)))
        (record {
          returned = refl;
          book =
              one_side-IsBook (own o.side) _ _ l insert-across insert-back b
                (queue_up-IsLevels o l.orders fresh (own o.side) refl some_quantity _
                  (IsBook-levels (own o.side) l b))
                (queue_up-IsListed o l.orders (own o.side) _ (IsBook-levels (own o.side) l b)
                  (IsBook-IsListed (own o.side) l b));
          shows = rw (
            one_side-view (own o.side) _ _ l insert-across insert-back b,
            resting-queue_up o l.orders fresh (own o.side) refl some_quantity _
                (IsBook-levels (own o.side) l b),
            orders_of-view (own o.side) l,
          );
          calls = refl;
        })

module _ (id : ℕ) (side : Side) (price : ℤ) (flags : ℕ) (notify : Bool) (before q : ℕ) where
  abbrev rested : Order
  rested = new_order_of id side price flags before q

  abbrev calls_of : Ladder → List Event
  calls_of l = closing_events l.symbol id side price flags notify q

  rest_order-done :
      (l : Ladder)
      → (ltb 0 q && not (is_ioc flags)) ≡ false
      → rest_order id side price flags notify before q l ≡ (ok tt, l, calls_of l)
  unfolding rest_order
  rest_order-done l done = ground arith

  rest_order-rests :
      (l : Ladder)
      → lookup id l.orders ≡ none
      → q ≤ before
      → (ltb 0 q && not (is_ioc flags)) ≡ true
      → (add_order (own side) rested l).0 ≡ ok tt
      → (add_order (own side) rested l).2 ≡ []
      → rest_order id side price flags notify before q l
        ≡ (ok tt, (add_order (own side) rested l).1, calls_of l)
  unfolding rest_order
  rest_order-rests l fresh le more returned calls = ground (arith, append-nil (calls_of l))

  rest_order-Yields :
      (l : Ladder)
      → IsBook l
      → lookup id l.orders ≡ none
      → q ≤ before
      → Yields
          (rest_order id side price flags notify before q l)
          tt
          (placed id side price flags before q (view l))
          (calls_of l)
  rest_order-Yields l b fresh le = elim (Bool-cases (ltb 0 q && not (is_ioc flags))) [
    | inl more ↦
        let y = add_order-Yields rested l b fresh (ground arith) in
        rw (more, rest_order-rests l fresh le more y.returned y.calls)
          (record { returned = refl; book = y.book; shows = y.shows; calls = refl })
    | inr done ↦
        rw (done, rest_order-done l done)
          (record { returned = refl; book = b; shows = refl; calls = refl })
  ]

  -- The same, for a ladder whose symbol and market are known by other names.
  rest_order-at :
      (l : Ladder) (symbol : ℕ) (m : Market)
      → l.symbol ≡ symbol
      → view l ≡ m
      → IsBook l
      → lookup id l.orders ≡ none
      → q ≤ before
      → Yields
          (rest_order id side price flags notify before q l)
          tt
          (placed id side price flags before q m)
          (closing_events symbol id side price flags notify q)
  rest_order-at l symbol m es em b fresh le =
      subst
        (λ x.
          Yields (rest_order id side price flags notify before q l) tt
            (placed id side price flags before q m) (closing_events x id side price flags notify q))
        es
        (subst
          (λ x.
            Yields (rest_order id side price flags notify before q l) tt
              (placed id side price flags before q x) (calls_of l))
          em (rest_order-Yields l b fresh le))

module _ (id : ℕ) (side : Side) (quantity : ℕ) (price : ℤ) (flags : ℕ) (notify : Bool) (filled : ℕ)
    (l : Ladder) (b : IsBook l) where
  abbrev entered : Entered
  entered = enter l.symbol id side price flags notify (quantity - filled) (view l)

  matched :
      Matches
        (opposite (own side))
        id
        side
        price
        (levels (opposite (own side)) l)
        l.orders
        (quantity - filled)
        l
        (sweep l.symbol id side price
          (orders_of (opposite (own side)) (view l))
          (quantity - filled))
  matched = rw (orders_of-view (opposite (own side)) l) (
      match_levels-sweep (opposite (own side)) id side price _ l.orders (quantity - filled) l
        (IsBook-levels (opposite (own side)) l b))

  abbrev after_match : Ladder
  after_match = with_side (opposite (own side)) matched.after matched.left l

  after_match-IsBook : IsBook after_match
  after_match-IsBook =
      one_side-IsBook (opposite (own side)) _ _ l matched.across matched.back b matched.valid
        (matched.listed (IsBook-IsListed (opposite (own side)) l b))

  after_match-view :
      view after_match
      ≡ with_orders
          (opposite (own side))
          (sweep l.symbol id side price
            (orders_of (opposite (own side)) (view l))
            (quantity - filled)).left
          (view l)
  after_match-view =
      rw (one_side-view (opposite (own side)) _ _ l matched.across matched.back b, matched.refines)

  abbrev swept : Swept
  swept =
      sweep l.symbol id side price (orders_of (opposite (own side)) (view l)) (quantity - filled)

  abbrev rest : Action (Unit {0})
  rest = rest_order id side price flags notify (quantity - filled) swept.quantity

  rest-Yields :
      lookup id l.orders ≡ none
      → Yields
          (rest after_match)
          tt
          entered.market
          (closing_events l.symbol id side price flags notify swept.quantity)
  unfolding enter
  rest-Yields fresh =
      rest_order-at id side price flags notify (quantity - filled) swept.quantity after_match
        l.symbol (with_orders (opposite (own side)) swept.left (view l))
        (symbol-with_side (opposite (own side)) matched.after matched.left l) after_match-view
        after_match-IsBook
        (rw (orders-with_side (opposite (own side)) matched.after matched.left l)
          (matched.fresh id fresh))
        (sweep-le l.symbol id side price _ (quantity - filled))

  handle_new_order-run :
      filled < quantity
      → (rest after_match).0 ≡ ok tt
      → handle_new_order id side quantity price flags notify filled l
        ≡ (ok swept.quantity, (rest after_match).1, swept.events ++ (rest after_match).2)
  unfolding handle_new_order
  handle_new_order-run more returned = ground (
    arith,
    rw (with_side_self (opposite (own side)) l) at matched.runs,
    append-nil (rest after_match).2,
  )

  -- On a well-formed ladder that does not hold the id, and with more quantity than is filled,
  -- `handle_new_order` returns the quantity that is left, leaves a well-formed ladder that shows
  -- the specified market, and makes the specified calls: the incoming order sweeps the other
  -- side, and what is left of it rests behind every order at its price or a better one, unless it
  -- is immediate-or-cancel.
  pub handle_new_order-enters :
      lookup id l.orders ≡ none
      → filled < quantity
      → Yields
          (handle_new_order id side quantity price flags notify filled l)
          entered.remaining
          entered.market
          entered.events
  unfolding enter
  handle_new_order-enters fresh more =
      let y = rest-Yields fresh in
      rw (handle_new_order-run more y.returned) (record {
        returned = refl;
        book = y.book;
        shows = y.shows;
        calls = ap (◌++◌ swept.events) y.calls;
      })
