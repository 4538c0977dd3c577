-- ===== src/Bots/OrderBook/Tests.antt =====
-- Runs of `OrderBook` (bots/order_book.cpp) at concrete books.
use ndfex.Prelude.{ℕ, ◌<◌, ◌≡◌, refl, [], ◌∷◌, some, arith}
use ndfex.Prelude.Int.{pos}
use ndfex.Prelude.Map.{lookup, insert, erase, sum}
use ndfex.Protocol.{buy, sell}
use ndfex.Ladder.State.{greater, less}
use ndfex.Bots.OrderBook.{
  OrderBook, BookOrder, find_depth, put_depth, erase_depth, add_quantity, new_order, delete_order,
  modify_order, trade_quantity, drop_empty, order_trade, get_best_bid, get_best_ask,
}
use ndfex.Bots.OrderBook.Changes.{IsTallied}
use ndfex.Bots.OrderBook.Methods.{
  new_order-IsTallied, delete_order-IsTallied, modify_order-IsTallied,
}
use ndfex.Bots.OrderBook.Best.{IsTop, get_best_bid-IsTop}

abbrev empty_book : OrderBook
empty_book = record { orders = []; buy_levels = []; sell_levels = [] }

no_live : (id : ℕ) (o : BookOrder) → lookup id (empty_book.orders) ≡ some o → 0 < o.quantity
unfolding lookup
no_live id o e = absurd (cc)

empty_book-IsTallied : IsTallied empty_book
unfolding find_depth sum
empty_book-IsTallied = record {
  unique = tt;
  live = no_live;
  shows = record {
    formed = elim [ greater ↦ refl | less ↦ refl ];
    exact = elim [ greater ↦ λ p. refl | less ↦ λ p. refl ];
  };
  bounded = λ rk p. omega arith;
}

abbrev one_order : OrderBook
one_order = record {
  orders = (7, record { side = buy; price = pos 100; quantity = 5 }) ∷ [];
  buy_levels = (pos 100, 5) ∷ [];
  sell_levels = [];
}

one_order-runs : new_order 7 buy 5 (pos 100) empty_book ≡ one_order
unfolding new_order add_quantity insert lookup put_depth find_depth
one_order-runs = refl

one_order-IsTallied : IsTallied one_order
unfolding lookup new_order add_quantity insert put_depth find_depth sum
one_order-IsTallied =
    new_order-IsTallied 7 empty_book empty_book-IsTallied buy 5 (pos 100) refl (omega arith)
      (omega arith)

new_order-IsTallied_example : IsTallied (new_order 8 buy 3 (pos 100) one_order)
unfolding lookup sum
new_order-IsTallied_example =
    new_order-IsTallied 8 one_order one_order-IsTallied buy 3 (pos 100) refl (omega arith)
      (omega arith)

delete_order-IsTallied_example : IsTallied (delete_order 7 one_order)
unfolding lookup
delete_order-IsTallied_example =
    delete_order-IsTallied 7 one_order one_order-IsTallied
      (record { side = buy; price = pos 100; quantity = 5 }) refl

modify_order-IsTallied_example : IsTallied (modify_order 7 sell 9 (pos 102) one_order)
unfolding lookup sum erase
modify_order-IsTallied_example =
    modify_order-IsTallied 7 one_order one_order-IsTallied
      (record { side = buy; price = pos 100; quantity = 5 }) refl sell 9 (pos 102) (omega arith)
      (omega arith)

get_best_bid-IsTop_example :
    IsTop one_order greater (get_best_bid one_order) × IsTop one_order less (get_best_ask one_order)
get_best_bid-IsTop_example = get_best_bid-IsTop one_order one_order-IsTallied

-- An order that is used up takes its level with it.
traded_out_run : order_trade 7 5 one_order ≡ empty_book
unfolding order_trade trade_quantity drop_empty lookup erase put_depth find_depth erase_depth
traded_out_run = refl

-- A second order under an id adds to the level, but is not kept.
twice_run :
    new_order 7 buy 4 (pos 101) one_order
    ≡ record one_order { buy_levels = (pos 101, 4) ∷ (pos 100, 5) ∷ [] }
unfolding new_order add_quantity lookup put_depth find_depth
twice_run = refl
