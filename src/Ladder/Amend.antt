-- ===== src/Ladder/Amend.antt =====
-- `modify_order` of matching_engine/order_ladder.H: an order is closed, has its quantity set in place, or
-- goes out of the market and enters it again.
pub mod Replace
use mathlib.Core.Path.{subst₂}
use mathlib.Core.List.{map, map-append}
use ndfex.Prelude.{
  ℕ, ◌-◌, ◌≤◌, ◌<◌, ◌≡◌, refl, sym, ◌∙◌, ap, inl, inr, Bool, true, false, not, ◌&&◌, List, [], ◌∷◌,
  ◌++◌, none, some, arith, ltb, leb, ◌==◌, if◌then◌else◌, Bool-cases, Option-cases,
}
use ndfex.Prelude.Int.{ℤ, eqb_ℤ}
use ndfex.Prelude.Map.{Map, lookup, insert, erase, lookup-insert, lookup-erase}
use ndfex.Protocol.{Side, same_side}
use ndfex.Ladder.State.{
  greater, less, symbol-with_side, orders-with_side, Order, Ranking, own, opposite, levels, Levels,
  Ladder, with_side, on_modify_order, on_delete_order, ok, ◌>>=◌, ◌>>◌, Event,
}
use ndfex.Ladder.Levels.{find_level}
use ndfex.Ladder.Operations.{handle_new_order, delete_order, modify_order}
use ndfex.Ladder.Book.{
  same_ranking_refl, has, stands, IsAt, IsBook, IsQueue, IsLevels, IsListed, resting, orders_at,
  Keeps,
}
use ndfex.Ladder.Book.Frame.{off_side, insert-Keeps, off_level-off_side}
use ndfex.Ladder.Market.{
  Market, view, orders_of, with_orders, Yields, one_side-IsBook, one_side-view, IsBook-levels,
  IsBook-IsListed, orders_of-view, with_side_self, Entered, enter,
}
use ndfex.Ladder.Delete.{
  IsAt-listed, cancelled, delete_order-cancels, delete_order-strike, strike-IsBook, strike-view,
}
use ndfex.Ladder.Strike.{strike}
use ndfex.Ladder.Enter.{handle_new_order-enters}
use ndfex.Ladder.Amend.Replace.{
  replaced, replace-IsLevels, resting-replace, replace-IsListed, insert-Keeps-side,
  insert-Keeps-back, with_side-orders,
}

abbrev pub requantified : Order → ℕ → Order
requantified o quantity = record o { quantity = quantity }

-- The specification of `modify_order` at an order `o` of the market.
module _ (symbol id : ℕ) (o : Order) (side : Side) (quantity : ℕ) (price : ℤ) where
  -- Out and in again, with what was filled taken off.
  abbrev pub reentered : Market → Entered
  reentered m =
      enter symbol id side price o.flags false (quantity - o.filled_quantity) (cancelled id o m)

  abbrev pub modified_call : ℕ → Event
  modified_call q =
      if ltb 0 q then on_modify_order id symbol side q price else on_delete_order id true

  abbrev pub amended : Market → Market
  amended m =
      if leb quantity o.filled_quantity
      then cancelled id o m
      else if eqb_ℤ o.price price && same_side o.side side
      then with_orders (own o.side)
          (map (replaced (requantified o quantity)) (orders_of (own o.side) m)) m
      else (reentered m).market

  abbrev pub amended_calls : Market → List Event
  amended_calls m =
      if leb quantity o.filled_quantity
      then on_delete_order id true ∷ []
      else if eqb_ℤ o.price price && same_side o.side side
      then on_modify_order id symbol side (quantity - o.filled_quantity) price ∷ []
      else (reentered m).events ++ (modified_call (reentered m).remaining ∷ [])

module _ (id : ℕ) (o : Order) (side : Side) (quantity : ℕ) (price : ℤ) (l : Ladder) (b : IsBook l)
    (e : lookup id l.orders ≡ some o) where
  -- The branch that only sets the quantity.
  requantify-Yields :
      0 < quantity
      → IsBook (record l { orders = insert id (requantified o quantity) l.orders })
        × (view (record l { orders = insert id (requantified o quantity) l.orders })
            ≡ with_orders
                (own o.side)
                (map (replaced (requantified o quantity)) (orders_of (own o.side) (view l)))
                (view l))
  requantify-Yields some_quantity =
      let at = IsAt-listed id o l b e in
      let at' : IsAt (own o.side) o.price id (requantified o quantity) = record {
        known = at.known;
        priced = refl;
        sided = refl;
        open_quantity = some_quantity;
      } in
      let here = IsBook-levels (own o.side) l b in
      let same = with_side-orders (own o.side) (insert id (requantified o quantity) l.orders) l in
      let across = insert-Keeps-side id o (requantified o quantity) l b e in
      let back = insert-Keeps-back id o (requantified o quantity) l refl in
      (
        rw same (
            one_side-IsBook (own o.side) _ (levels (own o.side) l) l across back b
              (replace-IsLevels l.orders (own o.side) id o _ e at at' _ here)
              (replace-IsListed l.orders (own o.side) id o _ e at at' _
                (IsBook-IsListed (own o.side) l b))),
        ap view same
            ∙ (rw
                (
                  one_side-view (own o.side) _ (levels (own o.side) l) l across back b,
                  resting-replace l.orders (own o.side) id o _ e at at' _ here,
                  orders_of-view (own o.side) l,
                )
                refl),
      )

  abbrev without : Ladder
  without = with_side (own o.side) (erase id l.orders) (strike o.price id (levels (own o.side) l)) l

  reenter-Yields :
      o.filled_quantity < quantity
      → Yields
          (handle_new_order id side quantity price o.flags false o.filled_quantity without)
          (reentered l.symbol id o side quantity price (view l)).remaining
          (reentered l.symbol id o side quantity price (view l)).market
          (reentered l.symbol id o side quantity price (view l)).events
  reenter-Yields more =
      subst₂
        (λ s m.
          let n = enter s id side price o.flags false (quantity - o.filled_quantity) m in
          Yields (handle_new_order id side quantity price o.flags false o.filled_quantity without)
            n.remaining n.market n.events)
        (symbol-with_side (own o.side) _ _ l) (strike-view id o l b e)
        (handle_new_order-enters id side quantity price o.flags false o.filled_quantity without
          (strike-IsBook id o l b e)
          (rw
            (orders-with_side (own o.side) (erase id l.orders)
              (strike o.price id (levels (own o.side) l)) l)
            (ground (arith, lookup-erase id id l.orders)))
          more)

  modify_order-closes :
      leb quantity o.filled_quantity ≡ true
      → modify_order id side quantity price l ≡ delete_order true id l
  unfolding modify_order
  modify_order-closes used_up = ground arith

  modify_order-requantifies :
      leb quantity o.filled_quantity ≡ false
      → (eqb_ℤ o.price price && same_side o.side side) ≡ true
      → modify_order id side quantity price l ≡ (
        ok tt,
        record l { orders = insert id (requantified o quantity) l.orders },
        on_modify_order id l.symbol side (quantity - o.filled_quantity) price ∷ [],
      )
  unfolding modify_order
  modify_order-requantifies more in_place = ground arith

  modify_order-reenters :
      leb quantity o.filled_quantity ≡ false
      → (eqb_ℤ o.price price && same_side o.side side) ≡ false
      → let r = handle_new_order id side quantity price o.flags false o.filled_quantity without in
        let q = (reentered l.symbol id o side quantity price (view l)).remaining in
        r.0 ≡ ok q
        → modify_order id side quantity price l
          ≡ (ok tt, r.1, r.2 ++ (modified_call l.symbol id o side quantity price q ∷ []))
  unfolding modify_order
  modify_order-reenters more moved returned = ground (arith, delete_order-strike false id o l b e)

  -- At an order of a well-formed ladder, `modify_order` returns, leaves a well-formed ladder that
  -- shows the specified market, and makes the specified calls: it cancels the order if the new
  -- quantity is no more than what is filled, sets the quantity in place if price and side stay,
  -- and otherwise takes the order out and lets it enter again with what is filled taken off.
  pub modify_order-amends :
      Yields
        (modify_order id side quantity price l)
        tt
        (amended l.symbol id o side quantity price (view l))
        (amended_calls l.symbol id o side quantity price (view l))
  modify_order-amends = elim (Bool-cases (leb quantity o.filled_quantity)) [
    | inl used_up ↦
        let y = delete_order-cancels true id o l b e in
        let runs : modify_order id side quantity price l ≡ delete_order true id l =
          modify_order-closes used_up in
        rw (used_up, runs) y
    | inr more ↦ elim (Bool-cases (eqb_ℤ o.price price && same_side o.side side)) [
      | inl in_place ↦
          let (book, shows) = requantify-Yields (ground arith) in
          rw (more, in_place, modify_order-requantifies more in_place)
            (record { returned = refl; book = book; shows = shows; calls = refl })
      | inr moved ↦
          let y = reenter-Yields (ground arith) in
          rw (more, moved, modify_order-reenters more moved y.returned)
            (record {
              returned = refl;
              book = y.book;
              shows = y.shows;
              calls =
                  ap
                    (λ es.
                      es
                      ++ (modified_call l.symbol id o side quantity price
                            (reentered l.symbol id o side quantity price (view l)).remaining
                          ∷ []))
                    y.calls;
            })
    ]
  ]
