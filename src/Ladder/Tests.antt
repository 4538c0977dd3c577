-- ===== src/Ladder/Tests.antt =====
-- Concrete ladders for matching_engine/order_ladder.H: runs of its methods, and the theorems at them.
use ndfex.Prelude.{◌+◌, ◌≤◌, ◌≡◌, refl, ap, true, false, [], ◌∷◌, ◌++◌, some, arith}
use ndfex.Prelude.Int.{pos}
use ndfex.Prelude.Map.{lookup, insert, erase}
use ndfex.Protocol.{buy, sell, other, partial_fill, closed}
use ndfex.Ladder.State.{
  Order, greater, less, Ladder, on_trade, on_fill, on_new_order, on_modify_order, on_delete_order,
  ok,
}
use ndfex.Ladder.Levels.{find_level, set_level, insert_level, erase_level, unlink}
use ndfex.Ladder.Match.{handle_delete_order, full_match, partial_match, match_orders, match_levels}
use ndfex.Ladder.Operations.{
  add_order, rest_order, handle_new_order, new_order, delete_order, modify_order,
}
use ndfex.Ladder.Book.{IsBook, resting}
use ndfex.Ladder.Sweep.{sweep}
use ndfex.Ladder.Sweep.Quantity.{total, traded, filled}
use ndfex.Ladder.Sweep.Priority.{Taken, stops_at}
use ndfex.Ladder.Market.{view, Yields, enter}
use ndfex.Ladder.Refine.{Matches, match_levels-sweep}
use ndfex.Ladder.Delete.{cancelled, delete_order-cancels}
use ndfex.Ladder.Enter.{handle_new_order-enters}
use ndfex.Ladder.Amend.{amended, amended_calls, modify_order-amends}
use ndfex.Ladder.Session.{
  empty_ladder, apply, new, modify, Reaches, start, call, IsSound, Reaches-IsSound,
  Reaches-returned,
}
use ndfex.Ladder.Trading.{new_order-conserves, new_order-Taken, new_order-stops}
use ndfex.Ladder.Unchecked.{match_levels-unlimited}

abbrev ask_1 : Order
ask_1 = record {
  order_id = 1;
  timestamp = 0;
  quantity = 10;
  filled_quantity = 5;
  price = pos 100;
  side = sell;
  flags = 0;
}

abbrev ask_2 : Order
ask_2 = record {
  order_id = 2;
  timestamp = 0;
  quantity = 20;
  filled_quantity = 0;
  price = pos 100;
  side = sell;
  flags = 0;
}

abbrev ask_3 : Order
ask_3 = record {
  order_id = 3;
  timestamp = 0;
  quantity = 30;
  filled_quantity = 0;
  price = pos 110;
  side = sell;
  flags = 0;
}

abbrev bid_4 : Order
bid_4 = record {
  order_id = 4;
  timestamp = 0;
  quantity = 40;
  filled_quantity = 0;
  price = pos 90;
  side = buy;
  flags = 0;
}

abbrev ladder : Ladder
ladder = record {
  symbol = 7;
  orders = (1, ask_1) ∷ (2, ask_2) ∷ (3, ask_3) ∷ (4, bid_4) ∷ [];
  buy_levels = (pos 90, 4 ∷ []) ∷ [];
  sell_levels = (pos 100, 1 ∷ 2 ∷ []) ∷ (pos 110, 3 ∷ []) ∷ [];
}

ladder-IsBook : IsBook ladder
unfolding lookup find_level
ladder-IsBook = record {
  bids = (
    λ e. cc,
    (
      (
        bid_4,
        refl,
        record { known = refl; priced = refl; sided = refl; open_quantity = omega arith },
      ),
      refl,
      tt,
    ),
    tt,
    tt,
  );
  asks = (
    λ e. cc,
    (
      (
        ask_1,
        refl,
        record { known = refl; priced = refl; sided = refl; open_quantity = omega arith },
      ),
      refl,
      (
        (
          ask_2,
          refl,
          record { known = refl; priced = refl; sided = refl; open_quantity = omega arith },
        ),
        refl,
        tt,
      ),
    ),
    (refl, tt),
    (
      λ e. cc,
      (
        (
          ask_3,
          refl,
          record { known = refl; priced = refl; sided = refl; open_quantity = omega arith },
        ),
        refl,
        tt,
      ),
      tt,
      tt,
    ),
  );
  bids_listed = λ j o e s. ground arith;
  asks_listed = λ j o e s. ground arith;
}

handle_new_order-enters_example :
    let n = enter 7 9 buy (pos 105) 0 true 40 (view ladder) in
    Yields (handle_new_order 9 buy 50 (pos 105) 0 true 10 ladder) n.remaining n.market n.events
unfolding lookup
handle_new_order-enters_example =
    handle_new_order-enters 9 buy 50 (pos 105) 0 true 10 ladder ladder-IsBook refl (omega arith)

delete_order-cancels_example :
    Yields
      (delete_order true 1 ladder)
      tt
      (cancelled 1 ask_1 (view ladder))
      (on_delete_order 1 true ∷ [])
unfolding lookup
delete_order-cancels_example = delete_order-cancels true 1 ask_1 ladder ladder-IsBook refl

modify_order-amends_example :
    Yields
      (modify_order 4 buy 60 (pos 110) ladder)
      tt
      (amended 7 4 bid_4 buy 60 (pos 110) (view ladder))
      (amended_calls 7 4 bid_4 buy 60 (pos 110) (view ladder))
unfolding lookup
modify_order-amends_example = modify_order-amends 4 bid_4 buy 60 (pos 110) ladder ladder-IsBook refl

match_levels-sweep_example :
    Matches less 9 buy
      (pos 105)
      ladder.sell_levels
      ladder.orders
      40
      ladder
      (sweep 7 9 buy (pos 105) (resting ladder.orders ladder.sell_levels) 40)
match_levels-sweep_example =
    match_levels-sweep less 9 buy (pos 105) ladder.sell_levels ladder.orders 40 ladder
      ladder-IsBook.asks

abbrev opened : Ladder
opened = (apply (new 1 sell 10 (pos 100) 0) (empty_ladder 7)).1

opened-Reaches : Reaches 7 opened ([] ++ (apply (new 1 sell 10 (pos 100) 0) (empty_ladder 7)).2)
unfolding lookup empty_ladder
opened-Reaches =
    call (new 1 sell 10 (pos 100) 0) (empty_ladder 7) [] start (refl, omega arith, refl)

Reaches-IsSound_example : IsSound opened
Reaches-IsSound_example = Reaches-IsSound 7 opened _ opened-Reaches

Reaches-returned_example : (apply (modify 1 buy 20 (pos 120)) opened).0 ≡ ok tt
Reaches-returned_example =
    Reaches-returned 7 opened _ (modify 1 buy 20 (pos 120)) opened-Reaches refl

new_order-conserves_example :
    let r = new_order 9 buy 50 (pos 105) 0 0 ladder in
    (traded r.2 + total (view r.1).asks ≡ 60)
    × (filled true r.2 ≡ traded r.2)
    × (filled false r.2 ≡ traded r.2)
    × (traded r.2 ≤ 50)
unfolding lookup total
new_order-conserves_example =
    new_order-conserves 9 buy 50 (pos 105) 0 0 ladder ladder-IsBook refl (omega arith)

new_order-Taken_example :
    Taken buy
      (pos 105)
      (ask_1 ∷ ask_2 ∷ ask_3 ∷ [])
      (view (new_order 9 buy 50 (pos 105) 0 0 ladder).1).asks
unfolding lookup
new_order-Taken_example =
    new_order-Taken 9 buy 50 (pos 105) 0 0 ladder ladder-IsBook refl (omega arith)

-- An order for 50 takes both orders at 100, and stops below the one at 110.
new_order-run :
    (new_order 9 buy 50 (pos 105) 0 0 ladder).2
    ≡ on_trade 1 10 (pos 100)
      ∷ on_fill 1 7 sell 10 (pos 100) closed false
      ∷ on_fill 9 7 buy 10 (pos 100) partial_fill true
      ∷ on_trade 2 20 (pos 100)
      ∷ on_fill 2 7 sell 20 (pos 100) closed false
      ∷ on_fill 9 7 buy 20 (pos 100) partial_fill true
      ∷ on_new_order 9 7 buy 20 (pos 105) 0
      ∷ []
unfolding new_order handle_new_order match_levels match_orders full_match partial_match
    handle_delete_order rest_order add_order lookup erase insert find_level set_level insert_level
    erase_level unlink
new_order-run = refl

new_order-stops_example :
    stops_at buy (pos 105) (view (new_order 9 buy 50 (pos 105) 0 0 ladder).1).asks ≡ true
unfolding lookup traded
new_order-stops_example =
    new_order-stops 9 buy 50 (pos 105) 0 0 ladder ladder-IsBook refl (omega arith)
      (rw (ap traded new_order-run) (omega arith))

-- The order has 5 of 15 filled, and 10 left: a modification to 12 reports 7, and leaves 12.
modify_order-in_place :
    ((modify_order 1 sell 12 (pos 100) ladder).2 ≡ on_modify_order 1 7 sell 7 (pos 100) ∷ [])
    × (lookup 1 (modify_order 1 sell 12 (pos 100) ladder).1.orders
        ≡ some (record ask_1 { quantity = 12 }))
unfolding modify_order lookup insert
modify_order-in_place = (refl, refl)

-- A side byte of 9, and a limit that no bid is near.
match_levels-unlimited_example :
    match_levels greater 9 (other 9) (pos 5000) ladder.buy_levels 40 ladder
    ≡ match_levels greater 9 (other 9) (pos 1) ladder.buy_levels 40 ladder
match_levels-unlimited_example =
    match_levels-unlimited greater 9 9 (pos 5000) (pos 1) ladder.buy_levels 40 ladder
