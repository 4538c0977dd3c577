-- ===== src/Ladder/Walk.antt =====
-- The inner loop of `OrderLadder::match` (matching_engine/order_ladder.H) as a function of the orders
-- and one queue: what it leaves of them, and that the loop does just that to a well-formed level.
pub mod Store
use ndfex.Prelude.{
  ◌⊎◌, ℕ, ◌-◌, ◌≡◌, refl, true, false, List, [], ◌∷◌, ◌++◌, none, some, arith, ltb, leb,
}
use ndfex.Prelude.Int.{ℤ}
use ndfex.Prelude.Map.{Map, lookup, insert, erase, lookup-insert, lookup-erase}
use ndfex.Protocol.{Side, partial_fill, closed}
use ndfex.Ladder.State.{
  Order, Ranking, greater, less, Levels, Ladder, with_side, orders-with_side, Event, on_trade,
  on_fill, ok,
}
use ndfex.Ladder.Levels.{find_level, set_level, unlink}
use ndfex.Ladder.Match.{
  Walk, walked, returned, reduce, fill_flag, handle_delete_order, full_match, partial_match,
  match_orders,
}
use ndfex.Ladder.Book.{has, IsAt, IsQueue}
use ndfex.Ladder.Book.Frame.{erase-Agrees, insert-Agrees, Agrees, IsQueue-Agrees}

pub record Walked : Type 0 where
  pub orders : Map Order
  pub queue : List ℕ
  pub result : Walk
  pub events : List Event

-- The calls for one resting order, of which `n` are traded; `left` is left of the incoming order.
abbrev pub full_events : ℕ → ℕ → Side → Order → ℕ → List Event
full_events symbol incoming side o left =
    on_trade o.order_id o.quantity o.price
    ∷ on_fill o.order_id symbol o.side o.quantity o.price closed false
    ∷ on_fill incoming symbol side o.quantity o.price (fill_flag left) true
    ∷ []

abbrev pub partial_events : ℕ → ℕ → Side → Order → ℕ → List Event
partial_events symbol incoming side o n =
    on_trade o.order_id n o.price
    ∷ on_fill o.order_id symbol o.side n o.price partial_fill false
    ∷ on_fill incoming symbol side n o.price closed true
    ∷ []

module _ (symbol incoming : ℕ) (side : Side) where
  pub walk : Map Order → List ℕ → ℕ → Walked
  walk os [] q = record { orders = os; queue = []; result = walked q; events = [] }
  walk os (id ∷ ids) q = elim (ltb 0 q) [
    | false ↦ record { orders = os; queue = id ∷ ids; result = walked q; events = [] }
    | true ↦ elim (lookup id os) [
      | none ↦ record { orders = os; queue = id ∷ ids; result = returned; events = [] }
      | some o ↦ elim (leb o.quantity q) [
        | true ↦
            let w = walk (erase id os) ids (q - o.quantity) in
            record w { events = full_events symbol incoming side o (q - o.quantity) ++ w.events }
        | false ↦ record {
          orders = insert id (reduce o q) os;
          queue = id ∷ ids;
          result = returned;
          events = partial_events symbol incoming side o q;
        }
      ]
    ]
  ]

-- The round of the loop at an order: not entered, a full match, or a partial one.
pub match_cases :
    (o : Order) (q : ℕ)
    → (ltb 0 q ≡ false)
      ⊎ ((ltb 0 q ≡ true) × (leb o.quantity q ≡ true)
          ⊎ (ltb 0 q ≡ true) × (leb o.quantity q ≡ false))
match_cases o q = ground arith

module _ (symbol incoming : ℕ) (side : Side) (os : Map Order) (id : ℕ) (ids : List ℕ) (q : ℕ) where
  pub walk-nil :
      walk symbol incoming side os [] q
      ≡ record { orders = os; queue = []; result = walked q; events = [] }
  unfolding walk
  walk-nil = refl

  pub walk-spent :
      ltb 0 q ≡ false
      → walk symbol incoming side os (id ∷ ids) q
        ≡ record { orders = os; queue = id ∷ ids; result = walked q; events = [] }
  unfolding walk
  walk-spent spent = ground arith

  pub walk-full :
      (o : Order)
      → lookup id os ≡ some o
      → ltb 0 q ≡ true
      → leb o.quantity q ≡ true
      → let w = walk symbol incoming side (erase id os) ids (q - o.quantity) in
        walk symbol incoming side os (id ∷ ids) q
        ≡ record w { events = full_events symbol incoming side o (q - o.quantity) ++ w.events }
  unfolding walk
  walk-full o e more full = ground arith

  pub walk-partial :
      (o : Order)
      → lookup id os ≡ some o
      → ltb 0 q ≡ true
      → leb o.quantity q ≡ false
      → walk symbol incoming side os (id ∷ ids) q ≡ record {
        orders = insert id (reduce o q) os;
        queue = id ∷ ids;
        result = returned;
        events = partial_events symbol incoming side o q;
      }
  unfolding walk
  walk-partial o e more larger = ground arith

-- `handle_delete_order` of the head of the first level.
handle_delete_order-head :
    (rk : Ranking) (p : ℤ) (id : ℕ) (o : Order) (os : Map Order) (ids : List ℕ) (lv : Levels)
    (l : Ladder)
    → lookup id os ≡ some o
    → o.price ≡ p
    → handle_delete_order rk id (with_side rk os ((p, id ∷ ids) ∷ lv) l)
      ≡ (ok tt, with_side rk (erase id os) ((p, ids) ∷ lv) l, [])
unfolding handle_delete_order find_level set_level unlink
handle_delete_order-head greater p id o os ids lv l e at = ground arith
handle_delete_order-head less p id o os ids lv l e at = ground arith

-- On a good queue at the head of the levels, the loop of the source is `walk`.
module _ (incoming : ℕ) (side : Side) where
  full_match-head :
      (rk : Ranking) (p : ℤ) (id : ℕ) (o : Order) (os : Map Order) (ids : List ℕ) (lv : Levels)
      (l : Ladder) (left : ℕ)
      → lookup id os ≡ some o
      → IsAt rk p id o
      → full_match rk incoming side o left (with_side rk os ((p, id ∷ ids) ∷ lv) l) ≡ (
        ok tt,
        with_side rk (erase id os) ((p, ids) ∷ lv) l,
        full_events l.symbol incoming side o left,
      )
  unfolding full_match
  full_match-head greater p id o os ids lv l left e at =
      rw (at.known, handle_delete_order-head greater p id o os ids lv l e at.priced)
  full_match-head less p id o os ids lv l left e at =
      rw (at.known, handle_delete_order-head less p id o os ids lv l e at.priced)

  partial_match-head :
      (rk : Ranking) (p : ℤ) (id : ℕ) (o : Order) (q : ℕ) (os : Map Order) (ids : List ℕ)
      (lv : Levels) (l : Ladder)
      → IsAt rk p id o
      → partial_match rk incoming side id o q (with_side rk os ((p, id ∷ ids) ∷ lv) l) ≡ (
        ok tt,
        with_side rk (insert id (reduce o q) os) ((p, id ∷ ids) ∷ lv) l,
        partial_events l.symbol incoming side o q,
      )
  unfolding partial_match
  partial_match-head greater p id o q os ids lv l at = refl
  partial_match-head less p id o q os ids lv l at = refl

  pub match_orders-walk :
      (rk : Ranking) (p : ℤ) (os : Map Order) (ids : List ℕ) (q : ℕ) (lv : Levels) (l : Ladder)
      → IsQueue os rk p ids
      → let w = walk l.symbol incoming side os ids q in
        match_orders rk incoming side ids q (with_side rk os ((p, ids) ∷ lv) l)
        ≡ (ok w.result, with_side rk w.orders ((p, w.queue) ∷ lv) l, w.events)
  unfolding match_orders walk
  match_orders-walk rk p os [] q lv l v = refl
  match_orders-walk rk p os (id ∷ ids) q lv l ((o, e, at), fresh, v) = ground (
    arith,
    full_match-head rk p id o os ids lv l (q - o.quantity) e at,
    partial_match-head rk p id o q os ids lv l at,
    match_orders-walk rk p (erase id os) ids (q - o.quantity) lv l
        (IsQueue-Agrees os (erase id os) rk p ids (erase-Agrees id os ids fresh) v),
    orders-with_side rk os ((p, id ∷ ids) ∷ lv) l,
  )
