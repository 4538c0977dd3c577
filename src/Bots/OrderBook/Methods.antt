-- ===== src/Bots/OrderBook/Methods.antt =====
-- The methods of `OrderBook` (bots/order_book.cpp) keep each level at the sum of its orders.
use ndfex.Prelude.{ℕ, ◌+◌, ◌<◌, ◌^◌, ◌≡◌, refl, none, some, arith}
use ndfex.Prelude.Int.{ℤ}
use ndfex.Prelude.Map.{lookup, insert, erase, insert-IsUnique, erase-IsUnique}
use ndfex.Protocol.{Side}
use ndfex.Ladder.State.{Ranking, own}
use ndfex.Bots.OrderBook.{
  OrderBook, BookOrder, add_quantity, delete_order_from_levels, new_order, delete_order,
  modify_order,
}
use ndfex.Bots.OrderBook.Tally.{weight}
use ndfex.Bots.OrderBook.Changes.{
  depth, IsTallied, orders-Shows, orders-add_quantity, orders-delete_order_from_levels,
  add_order-Shows, delete_order_from_levels-Shows,
}
use ndfex.Bots.OrderBook.Sums.{
  held-none, held-some, depth-insert, depth-erase, room_for, insert-AllLive, erase-AllLive, tallied,
}

module _ (id : ℕ) (b : OrderBook) (t : IsTallied b) where
  new_order-adds :
      (o : BookOrder)
      → lookup id b.orders ≡ none
      → new_order id o.side o.quantity o.price b
        ≡ add_quantity (own o.side) o.price o.quantity (record b { orders = insert id o b.orders })
  unfolding new_order
  new_order-adds o fresh = rw fresh refl

  -- Where each level of the book shows the sum of its orders, which fits 32 bits, and no order is
  -- empty: it is so after a new order with a new id and some quantity, for which its level has
  -- room.
  pub new_order-IsTallied :
      (side : Side) (quantity : ℕ) (price : ℤ)
      → lookup id b.orders ≡ none
      → 0 < quantity
      → depth b.orders (own side) price + quantity < 2 ^ 32
      → IsTallied (new_order id side quantity price b)
  new_order-IsTallied side quantity price fresh some_quantity room =
      let o : BookOrder = record { side = side; price = price; quantity = quantity } in
      let os = insert id o b.orders in
      let b' : OrderBook = record b { orders = os } in
      let more : (rk : Ranking) (p : ℤ) → depth os rk p ≡ depth b.orders rk p + weight rk p o =
        λ rk p. omega (arith, depth-insert id o b.orders rk p, held-none id b.orders rk p fresh) in
      let small = room_for b.orders os o t.bounded more room in
      rw (new_order-adds o fresh) (
        tallied os _ (orders-add_quantity (own side) price quantity b')
          (insert-IsUnique id o b.orders t.unique)
          (insert-AllLive id o b.orders some_quantity t.live)
          (add_order-Shows o b' (depth b.orders) (depth os) (orders-Shows os b _ t.shows)
            some_quantity more small)
          small)

  module _ (o : BookOrder) (found : lookup id b.orders ≡ some o) where
    some_quantity : 0 < o.quantity
    some_quantity = t.live id o found

    lost :
        (rk : Ranking) (p : ℤ)
        → depth (erase id b.orders) rk p + weight rk p o ≡ depth b.orders rk p
    lost rk p =
        omega (arith, depth-erase id b.orders rk p t.unique, held-some id o b.orders rk p found)

    smaller : (rk : Ranking) (p : ℤ) → depth (erase id b.orders) rk p < 2 ^ 32
    smaller rk p = omega (arith, lost rk p, t.bounded rk p)

    replaced :
        (o' : BookOrder) (rk : Ranking) (p : ℤ)
        → depth (insert id o' b.orders) rk p ≡ depth (erase id b.orders) rk p + weight rk p o'
    replaced o' rk p =
        omega
          (arith, depth-insert id o' b.orders rk p, held-some id o b.orders rk p found, lost rk p)

    without : OrderBook
    without = record (delete_order_from_levels o b) { orders = erase id b.orders }

    delete_order-takes : delete_order id b ≡ without
    unfolding delete_order without
    delete_order-takes = ground (arith, found, some_quantity, orders-delete_order_from_levels o b)

    -- Where each level of the book shows the sum of its orders, which fits 32 bits, and no order
    -- is empty: it is so after the deletion of an order of the book.
    pub delete_order-IsTallied : IsTallied (delete_order id b)
    unfolding without
    delete_order-IsTallied = rw delete_order-takes (
        tallied (erase id b.orders) without refl (erase-IsUnique id b.orders t.unique)
          (erase-AllLive id b.orders t.live)
          (orders-Shows _ _ _
            (delete_order_from_levels-Shows o b (depth b.orders) _ t.shows some_quantity lost))
          smaller)

    modify_order-replaces :
        (o' : BookOrder)
        → modify_order id o'.side o'.quantity o'.price b ≡ (
            let b' = add_quantity (own o'.side) o'.price o'.quantity without in
            record b' { orders = insert id o' b.orders })
    unfolding modify_order without
    modify_order-replaces o' =
        rw (found, modify_order) (ground (arith, orders-delete_order_from_levels o b))

    -- Where each level of the book shows the sum of its orders, which fits 32 bits, and no order
    -- is empty: it is so after a change of an order of the book to some quantity, for which its
    -- new level has room without the old order.
    pub modify_order-IsTallied :
        (side : Side) (quantity : ℕ) (price : ℤ)
        → 0 < quantity
        → depth (erase id b.orders) (own side) price + quantity < 2 ^ 32
        → IsTallied (modify_order id side quantity price b)
    unfolding without
    modify_order-IsTallied side quantity price some_new room =
        let o' : BookOrder = record { side = side; price = price; quantity = quantity } in
        let small =
          room_for (erase id b.orders) (insert id o' b.orders) o' smaller (replaced o') room in
        rw (modify_order-replaces o') (
          tallied (insert id o' b.orders) _ refl (insert-IsUnique id o' b.orders t.unique)
            (insert-AllLive id o' b.orders some_new t.live)
            (orders-Shows _ _ _ (
              add_order-Shows o' without (depth (erase id b.orders)) (depth (insert id o' b.orders))
                (orders-Shows _ _ _ (
                  delete_order_from_levels-Shows o b (depth b.orders) _ t.shows some_quantity lost))
                some_new (replaced o') small))
            small)
