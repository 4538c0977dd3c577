-- ===== src/Bots/OrderBook/Changes.antt =====
-- An order that comes to a level of `OrderBook` (bots/order_book.cpp), leaves it, or is traded.
use ndfex.Prelude.{
  ℕ, ◌+◌, ◌<◌, ◌^◌, ◌≡◌, refl, sym, ap, ◌∙◌, inl, inr, true, false, some, arith, ltb, ◌==◌,
  Bool-cases, Option-cases,
}
use ndfex.Prelude.Int.{ℤ}
use ndfex.Prelude.Map.{Map, lookup, IsUnique, sum}
use ndfex.Ladder.State.{Ranking, greater, less, own}
use ndfex.Ladder.Book.{same_ranking_refl}
use ndfex.Bots.OrderBook.{
  put_depth, erase_depth, Depths, depth_at, OrderBook, BookOrder, find_depth, depth_of, depths,
  with_depths, add_quantity, take_quantity, delete_order_from_levels, trade_quantity, drop_empty,
}
use ndfex.Bots.OrderBook.Depths.{well_formed, erase_depth-put_depth}
use ndfex.Bots.OrderBook.Tally.{
  same_level, weight, Shows, depth_at-put_depth, put_depth-Shows, erase_depth-Shows,
  add_quantity-Shows, take_quantity-Shows,
}

-- The open quantity of the orders of a level.
abbrev pub depth : Map BookOrder → Ranking → ℤ → ℕ
depth os rk p = sum (weight rk p) os

-- Each level shows the sum of its orders, which fits a `uint32_t`, and no order is empty.
pub record IsTallied (b : OrderBook) : Type 0 where
  pub unique : IsUnique b.orders
  pub live : (id : ℕ) (o : BookOrder) → lookup id b.orders ≡ some o → 0 < o.quantity
  pub shows : Shows b (depth b.orders)
  pub bounded : (rk : Ranking) (p : ℤ) → depth b.orders rk p < 2 ^ 32

pub weight-own : (o : BookOrder) → weight (own o.side) o.price o ≡ o.quantity
weight-own o = ground (arith, same_ranking_refl (own o.side))

pub weight-other :
    (o : BookOrder) (rk : Ranking) (p : ℤ)
    → same_level (own o.side) o.price rk p ≡ false
    → weight rk p o ≡ 0
weight-other o rk p e = rw e refl

-- Other orders, with the levels as they are.
pub orders-Shows :
    (os : Map BookOrder) (b : OrderBook) (W : Ranking → ℤ → ℕ)
    → Shows b W
    → Shows (record b { orders = os }) W
orders-Shows os b W s = record { formed = formed_of; exact = exact_of }
  where
    formed_of : (rk : Ranking) → well_formed rk (depths rk (record b { orders = os })) ≡ true
    formed_of greater = s.formed greater
    formed_of less = s.formed less

    exact_of : (rk : Ranking) (p : ℤ) → depth_at p (depths rk (record b { orders = os })) ≡ W rk p
    exact_of greater p = s.exact greater p
    exact_of less p = s.exact less p

pub orders-with_depths :
    (rk : Ranking) (ds : Depths) (b : OrderBook) → (with_depths rk ds b).orders ≡ b.orders
orders-with_depths greater ds b = refl
orders-with_depths less ds b = refl

pub orders-add_quantity :
    (rk : Ranking) (p : ℤ) (q : ℕ) (b : OrderBook) → (add_quantity rk p q b).orders ≡ b.orders
unfolding add_quantity
orders-add_quantity rk p q b = orders-with_depths rk _ b

pub orders-delete_order_from_levels :
    (o : BookOrder) (b : OrderBook) → (delete_order_from_levels o b).orders ≡ b.orders
unfolding delete_order_from_levels take_quantity
orders-delete_order_from_levels o b = ground (arith, orders-with_depths (own o.side) _ b)

pub orders-trade_quantity :
    (rk : Ranking) (p : ℤ) (q : ℕ) (b : OrderBook) → (trade_quantity rk p q b).orders ≡ b.orders
unfolding trade_quantity
orders-trade_quantity rk p q b = orders-with_depths rk _ b

pub orders-drop_empty :
    (rk : Ranking) (p : ℤ) (b : OrderBook) → (drop_empty rk p b).orders ≡ b.orders
unfolding drop_empty
orders-drop_empty rk p b = orders-with_depths rk _ b

module _ (o : BookOrder) (b : OrderBook) (W W' : Ranking → ℤ → ℕ) (s : Shows b W)
    (some_quantity : 0 < o.quantity) where
  -- An order comes to its level.
  pub add_order-Shows :
      ((rk : Ranking) (p : ℤ) → W' rk p ≡ W rk p + weight rk p o)
      → ((rk : Ranking) (p : ℤ) → W' rk p < 2 ^ 32)
      → Shows (add_quantity (own o.side) o.price o.quantity b) W'
  add_order-Shows more small =
      add_quantity-Shows (own o.side) o.price b W W' s
        (λ rk p e. omega (arith, more rk p, weight-other o rk p e)) o.quantity some_quantity
        (omega (arith, more (own o.side) o.price, weight-own o)) (small (own o.side) o.price)

  delete_order_from_levels-takes :
      (n : ℕ)
      → find_depth o.price (depths (own o.side) b) ≡ some n
      → ltb n o.quantity ≡ false
      → delete_order_from_levels o b ≡ take_quantity (own o.side) o.price n o.quantity b
  unfolding delete_order_from_levels
  delete_order_from_levels-takes n found enough = ground arith

  -- An order leaves its level.
  pub delete_order_from_levels-Shows :
      ((rk : Ranking) (p : ℤ) → W' rk p + weight rk p o ≡ W rk p)
      → Shows (delete_order_from_levels o b) W'
  delete_order_from_levels-Shows lost =
      let exact = s.exact (own o.side) o.price in
      elim (Option-cases (find_depth o.price (depths (own o.side) b))) [
        | inl missing ↦ absurd (
            omega (
              arith,
              ap depth_of missing,
              exact,
              lost (own o.side) o.price,
              weight-own o,
              some_quantity,
            ))
        | inr (n, found) ↦
            let n_is : n ≡ W (own o.side) o.price = sym (ap depth_of found) ∙ exact in
            let enough : ltb n o.quantity ≡ false =
              ground (arith, n_is, lost (own o.side) o.price, weight-own o) in
            rw (delete_order_from_levels-takes n found enough, n_is)
              (take_quantity-Shows (own o.side) o.price b W W' s
                (λ rk p e. omega (arith, lost rk p, weight-other o rk p e)) o.quantity
                (omega (arith, lost (own o.side) o.price, weight-own o)))
      ]

  -- A part of an order, or all of it, is traded.
  trade_quantity-written :
      (n : ℕ)
      → W (own o.side) o.price < 2 ^ 32
      → n + o.quantity ≡ W (own o.side) o.price
      → trade_quantity (own o.side) o.price o.quantity b
        ≡ with_depths (own o.side) (put_depth (own o.side) o.price n (depths (own o.side) b)) b
  unfolding trade_quantity
  trade_quantity-written n small e =
      ap
        (λ k. with_depths (own o.side) (put_depth (own o.side) o.price k (depths (own o.side) b)) b)
        (omega (arith, s.exact (own o.side) o.price, small, e))

  pub trade_quantity-Shows :
      ((rk : Ranking) (p : ℤ) → W' rk p + weight rk p o ≡ W rk p)
      → W (own o.side) o.price < 2 ^ 32
      → 0 < W' (own o.side) o.price
      → Shows (trade_quantity (own o.side) o.price o.quantity b) W'
  trade_quantity-Shows lost small some_left =
      rw
        (trade_quantity-written (W' (own o.side) o.price) small
          (omega (arith, lost (own o.side) o.price, weight-own o)))
        (put_depth-Shows (own o.side) o.price b W W' s
          (λ rk p e. omega (arith, lost rk p, weight-other o rk p e)) (W' (own o.side) o.price)
          some_left refl)

  drop_empty-kept :
      (b' : OrderBook) (rk : Ranking) (p : ℤ)
      → (depth_at p (depths rk b') == 0) ≡ false
      → drop_empty rk p b' ≡ b'
  unfolding drop_empty
  drop_empty-kept b' greater p e = rw e refl
  drop_empty-kept b' less p e = rw e refl

  drop_empty-erased :
      (rk : Ranking) (p : ℤ)
      → drop_empty rk p (with_depths rk (put_depth rk p 0 (depths rk b)) b)
        ≡ with_depths rk (erase_depth p (depths rk b)) b
  unfolding drop_empty
  drop_empty-erased greater p = ground (
    arith,
    depth_at-put_depth greater p p 0 b.buy_levels,
    erase_depth-put_depth greater p 0 b.buy_levels (s.formed greater),
  )
  drop_empty-erased less p = ground (
    arith,
    depth_at-put_depth less p p 0 b.sell_levels,
    erase_depth-put_depth less p 0 b.sell_levels (s.formed less),
  )

  pub traded_out-Shows :
      ((rk : Ranking) (p : ℤ) → W' rk p + weight rk p o ≡ W rk p)
      → W (own o.side) o.price < 2 ^ 32
      → Shows
          (drop_empty (own o.side) o.price (trade_quantity (own o.side) o.price o.quantity b))
          W'
  traded_out-Shows lost small = elim (Bool-cases (W' (own o.side) o.price == 0)) [
    | inr left ↦
        let shown = trade_quantity-Shows lost small (ground arith) in
        rw
          (drop_empty-kept (trade_quantity (own o.side) o.price o.quantity b) (own o.side) o.price
            (ground (arith, shown.exact (own o.side) o.price)))
          shown
    | inl none_left ↦
        rw
          (
            trade_quantity-written 0 small
                (ground (arith, lost (own o.side) o.price, weight-own o)),
            drop_empty-erased (own o.side) o.price,
          )
          (erase_depth-Shows (own o.side) o.price b W W' s
            (λ rk p e. omega (arith, lost rk p, weight-other o rk p e)) (ground arith))
  ]
