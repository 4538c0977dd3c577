-- ===== src/Bots/OrderBook.antt =====
-- `OrderBook` (bots/order_book.cpp): the orders that the feed names, and the open quantity at each price.
pub mod Depths
pub mod Tally
pub mod Changes
pub mod Sums
pub mod Methods
pub mod Best
mod Tests
use ndfex.Prelude.{
  ℕ, ◌+◌, ◌-◌, ◌%◌, ◌^◌, List, [], ◌∷◌, Option, none, some, ltb, ◌==◌, if◌then◌else◌,
}
use ndfex.Prelude.Int.{ℤ, pos, eqb_ℤ}
use ndfex.Prelude.Map.{Map, lookup, insert, erase}
use ndfex.Protocol.{Side, is_buy}
use ndfex.Ladder.State.{Ranking, greater, less, ahead, own}

pub record BookOrder : Type 0 where
  pub side : Side
  pub price : ℤ
  pub quantity : ℕ

-- `std::map<int32_t, uint32_t>`, best price first.
abbrev pub Depths : Type 0
Depths = List (ℤ × ℕ)

pub record OrderBook : Type 0 where
  pub orders : Map BookOrder
  pub buy_levels : Depths
  pub sell_levels : Depths

-- `PriceLevel`
pub record PriceLevel : Type 0 where
  pub price : ℤ
  pub quantity : ℕ

-- `levels.find(p)`
unfoldable pub find_depth : ℤ → Depths → Option ℕ
find_depth p [] = none
find_depth p ((x, n) ∷ ds) = if eqb_ℤ x p then some n else find_depth p ds

-- `levels[p] = n`, with a new entry where there is none.
unfoldable pub put_depth : Ranking → ℤ → ℕ → Depths → Depths
put_depth rk p n [] = (p, n) ∷ []
put_depth rk p n ((x, m) ∷ ds) =
    let rest = put_depth rk p n ds in
    if eqb_ℤ x p then (x, n) ∷ ds else if ahead rk p x then (p, n) ∷ (x, m) ∷ ds else (x, m) ∷ rest

-- `levels.erase(p)`
unfoldable pub erase_depth : ℤ → Depths → Depths
erase_depth p [] = []
erase_depth p ((x, m) ∷ ds) = let rest = erase_depth p ds in if eqb_ℤ x p then ds else (x, m) ∷ rest

-- `levels[p]`, which is 0 where there is no entry.
abbrev pub depth_of : Option ℕ → ℕ
depth_of none = 0
depth_of (some n) = n

abbrev pub depth_at : ℤ → Depths → ℕ
depth_at p ds = depth_of (find_depth p ds)

abbrev pub depths : Ranking → OrderBook → Depths
depths greater b = b.buy_levels
depths less b = b.sell_levels

abbrev pub with_depths : Ranking → Depths → OrderBook → OrderBook
with_depths greater ds b = record b { buy_levels = ds }
with_depths less ds b = record b { sell_levels = ds }

-- `levels[price] += quantity`, on a `uint32_t`
unfoldable pub add_quantity : Ranking → ℤ → ℕ → OrderBook → OrderBook
add_quantity rk p q b =
    with_depths rk (put_depth rk p ((depth_at p (depths rk b) + q) % 2 ^ 32) (depths rk b)) b

-- `new_order`: `emplace` keeps an order that has the id already.
unfoldable pub new_order : ℕ → Side → ℕ → ℤ → OrderBook → OrderBook
unfolding add_quantity
new_order id side quantity price b = add_quantity (own side) price quantity (record b {
  orders = elim (lookup id b.orders) [
    | none ↦ insert id (record { side = side; price = price; quantity = quantity }) b.orders
    | some o ↦ b.orders
  ];
})

-- The end of `delete_order_from_levels`: the level without `q`, or no level where none is left.
unfoldable pub take_quantity : Ranking → ℤ → ℕ → ℕ → OrderBook → OrderBook
take_quantity rk p n q b =
    with_depths rk
      (if n - q == 0 then erase_depth p (depths rk b) else put_depth rk p (n - q) (depths rk b)) b

-- `delete_order_from_levels`, for an order that is known.
unfoldable pub delete_order_from_levels : BookOrder → OrderBook → OrderBook
unfolding take_quantity
delete_order_from_levels o b = elim (find_depth o.price (depths (own o.side) b)) [
  | none ↦ b
  | some n ↦ if ltb n o.quantity then b else take_quantity (own o.side) o.price n o.quantity b
]

-- `delete_order`
unfoldable pub delete_order : ℕ → OrderBook → OrderBook
unfolding delete_order_from_levels
delete_order id b = elim (lookup id b.orders) [
  | none ↦ b
  | some o ↦
      if o.quantity == 0
      then record b { orders = erase id b.orders }
      else let b' = delete_order_from_levels o b in record b' { orders = erase id b'.orders }
]

-- `modify_order`
unfoldable pub modify_order : ℕ → Side → ℕ → ℤ → OrderBook → OrderBook
unfolding delete_order_from_levels add_quantity
modify_order id side quantity price b = elim (lookup id b.orders) [
  | none ↦ b
  | some o ↦
      let b' = add_quantity (own side) price quantity (delete_order_from_levels o b) in
      record b' {
        orders = insert id (record { side = side; price = price; quantity = quantity }) b'.orders;
      }
]

-- `levels[p] -= q`, and, where the order is used up, the erasing of a level that is 0. The source reads
-- the side and the price of an order that is used up after it has erased it; what it then reads is taken
-- to be what was there.
unfoldable pub trade_quantity : Ranking → ℤ → ℕ → OrderBook → OrderBook
trade_quantity rk p q b =
    with_depths rk (put_depth rk p ((depth_at p (depths rk b) + 2 ^ 32 - q) % 2 ^ 32) (depths rk b))
      b

unfoldable pub drop_empty : Ranking → ℤ → OrderBook → OrderBook
drop_empty rk p b =
    with_depths rk
      (if depth_at p (depths rk b) == 0 then erase_depth p (depths rk b) else depths rk b) b

-- `order_trade`
unfoldable pub order_trade : ℕ → ℕ → OrderBook → OrderBook
unfolding trade_quantity drop_empty
order_trade id quantity b = elim (lookup id b.orders) [
  | none ↦ b
  | some o ↦
      if ltb o.quantity quantity
      then b
      else if o.quantity - quantity == 0
      then drop_empty (own o.side) o.price
          (trade_quantity (own o.side) o.price quantity (record b { orders = erase id b.orders }))
      else trade_quantity (own o.side) o.price quantity
          (record b { orders = insert id (record o { quantity = o.quantity - quantity }) b.orders })
]

-- `get_best_bid`, `get_best_ask`
abbrev pub best : Depths → PriceLevel
best [] = record { price = pos 0; quantity = 0 }
best ((p, n) ∷ ds) = record { price = p; quantity = n }

unfoldable pub get_best_bid : OrderBook → PriceLevel
get_best_bid b = best b.buy_levels

unfoldable pub get_best_ask : OrderBook → PriceLevel
get_best_ask b = best b.sell_levels
