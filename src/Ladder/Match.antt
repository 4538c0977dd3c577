-- ===== src/Ladder/Match.antt =====
-- `OrderLadder::match` and `handle_delete_order` (matching_engine/order_ladder.H).
use ndfex.Prelude.{
  ℕ, ◌+◌, ◌-◌, ◌%◌, ◌^◌, Bool, true, false, ◌&&◌, ◌||◌, List, [], ◌∷◌, none, some, ltb, leb,
  if◌then◌else◌,
}
use ndfex.Prelude.Int.{ℤ, ltb_ℤ}
use ndfex.Prelude.Map.{lookup, insert, erase}
use ndfex.Protocol.{Side, is_buy, is_sell, FillFlag, partial_fill, closed}
use ndfex.Ladder.State.{
  Order, Ranking, Levels, levels, with_side, on_trade, on_fill, on_cancel_reject, level_missing,
  level_not_empty, dangling, Action, ◌>>=◌, ◌>>◌, pure, throw, gets, put, tell,
}
use ndfex.Ladder.Levels.{find_level, set_level, erase_level, unlink, is_empty}

-- `handle_delete_order(order_id, price_levels)`, with the levels of ranking `rk`.
unfoldable pub handle_delete_order : Ranking → ℕ → Action (Unit {0})
handle_delete_order rk id l = elim (lookup id l.orders) [
  | none ↦ tell (on_cancel_reject id) l
  | some o ↦ elim (find_level o.price (levels rk l)) [
    | none ↦ throw level_missing l
    | some ids ↦
        put (with_side rk (erase id l.orders) (set_level o.price (unlink id ids) (levels rk l)) l) l
  ]
]

-- How the inner loop of `match` ends: `walked` by its condition, with the quantity that is left, or
-- `returned` by the `return` that follows a partial match, with none left.
pub data Walk : Type 0 where
  walked : ℕ → Walk
  returned : Walk

abbrev pub fill_flag : ℕ → FillFlag
fill_flag q = if ltb 0 q then partial_fill else closed

-- `order->filled_quantity += quantity; order->quantity -= quantity`, on `uint32_t`s.
abbrev pub reduce : Order → ℕ → Order
reduce o q = record o {
  filled_quantity = (o.filled_quantity + q) % 2 ^ 32;
  quantity = o.quantity - q;
}

-- The test that leaves the outer loop. For a side that is neither, it never does.
abbrev pub beyond : Side → ℤ → ℤ → Bool
beyond side limit p = (is_buy side && ltb_ℤ limit p) || (is_sell side && ltb_ℤ p limit)

module _ (rk : Ranking) (incoming : ℕ) (side : Side) where
  -- The calls for an order that is matched in full.
  unfoldable pub full_match : Order → ℕ → Action (Unit {0})
  full_match o left = do
    symbol ← gets (λ l. l.symbol)
    tell (on_trade o.order_id o.quantity o.price)
    tell (on_fill o.order_id symbol o.side o.quantity o.price closed false)
    tell (on_fill incoming symbol side o.quantity o.price (fill_flag left) true)
    handle_delete_order rk o.order_id

  -- The calls for an order that is larger than what is left of the incoming one.
  unfoldable pub partial_match : ℕ → Order → ℕ → Action (Unit {0})
  partial_match id o q = do
    symbol ← gets (λ l. l.symbol)
    tell (on_trade o.order_id q o.price)
    tell (on_fill o.order_id symbol o.side q o.price partial_fill false)
    tell (on_fill incoming symbol side q o.price closed true)
    l ← gets (λ l. l)
    put (record l { orders = insert id (reduce o q) l.orders })

  -- The inner loop, along the links from the level's head.
  unfoldable pub match_orders : List ℕ → ℕ → Action Walk
  unfolding full_match partial_match
  match_orders [] q = pure (walked q)
  match_orders (id ∷ ids) q = elim (ltb 0 q) [
    | false ↦ pure (walked q)
    | true ↦ do
      found ← gets (λ l. lookup id l.orders)
      elim found [
        | none ↦ throw dangling
        | some o ↦ elim (leb o.quantity q) [
          | true ↦ do full_match o (q - o.quantity); match_orders ids (q - o.quantity)
          | false ↦ partial_match id o q >> pure returned
        ]
      ]
  ]

  -- The outer loop. Its iterator moves on only by erasing the level that it stands at, so the rounds
  -- go along the levels that the loop began with. The result is the quantity that is left.
  unfoldable pub match_levels : ℤ → Levels → ℕ → Action ℕ
  unfolding match_orders
  match_levels limit [] q = pure q
  match_levels limit ((p, ids) ∷ lv) q = elim (ltb 0 q) [
    | false ↦ pure q
    | true ↦ elim (beyond side limit p) [
      | true ↦ pure q
      | false ↦ do
        w ← match_orders ids q
        elim w [
          | returned ↦ pure 0
          | walked q' ↦ do
            empty ← gets (λ l. is_empty (find_level p (levels rk l)))
            elim empty [
              | true ↦ do
                l ← gets (λ l. l)
                put (with_side rk l.orders (erase_level p (levels rk l)) l)
                match_levels limit lv q'
              | false ↦ if ltb 0 q' then throw level_not_empty else pure q'
            ]
        ]
    ]
  ]
