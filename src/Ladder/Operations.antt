-- ===== src/Ladder/Operations.antt =====
-- `new_order`, `delete_order` and `modify_order` of `OrderLadder` (matching_engine/order_ladder.H).
use ndfex.Prelude.{
  ℕ, ◌-◌, Bool, true, false, not, ◌&&◌, [], ◌∷◌, ◌++◌, none, some, ltb, leb, ◌==◌, if◌then◌else◌,
}
use ndfex.Prelude.Int.{ℤ, eqb_ℤ}
use ndfex.Prelude.Map.{lookup, insert}
use ndfex.Protocol.{Side, same_side, is_ioc}
use ndfex.Ladder.State.{
  Order, Ranking, opposite, own, levels, with_side, Ladder, on_new_order, on_modify_order,
  on_delete_order, on_cancel_reject, filled_over_quantity, order_exists, impossible, tail_is_null,
  Action, ◌>>=◌, ◌>>◌, pure, throw, gets, put, tell, tell_if, require,
}
use ndfex.Ladder.Levels.{find_level, set_level, insert_level, erase_level, is_empty}
use ndfex.Ladder.Match.{handle_delete_order, match_levels}

-- The end of `handle_new_order`: a new node, at the back of its level or in a new level.
unfoldable pub add_order : Ranking → Order → Action (Unit {0})
add_order rk o l = elim (find_level o.price (levels rk l)) [
  | none ↦
      put
        (with_side rk (insert o.order_id o l.orders)
          (insert_level rk o.price (o.order_id ∷ []) (levels rk l)) l)
        l
  | some [] ↦ throw tail_is_null l
  | some (j ∷ ids) ↦
      put
        (with_side rk (insert o.order_id o l.orders)
          (set_level o.price (j ∷ ids ++ (o.order_id ∷ [])) (levels rk l)) l)
        l
]

abbrev pub contains : ℕ → Ladder → Bool
contains id l = elim (lookup id l.orders) [ none ↦ false | some o ↦ true ]

module _ (id : ℕ) (side : Side) where
  -- `handle_new_order` after the match: `before` is the quantity that was matched with, `q` what is
  -- left of it.
  unfoldable pub rest_order : ℤ → ℕ → Bool → ℕ → ℕ → Action (Unit {0})
  unfolding add_order
  rest_order price flags notify before q = do
    symbol ← gets (λ l. l.symbol)
    tell_if (notify && not (is_ioc flags)) (on_new_order id symbol side q price flags)
    if ltb 0 q && is_ioc flags
        then tell_if notify (on_delete_order id false)
        else if q == 0
        then pure tt
        else do
          exists ← gets (contains id)
          require (not exists) order_exists
          require (leb q before) impossible
          add_order (own side) (record {
            order_id = id;
            timestamp = 0;
            quantity = q;
            filled_quantity = before - q;
            price = price;
            side = side;
            flags = flags;
          })

  -- `handle_new_order`. The caller passes the levels of the order's own side, and its `quantity` by
  -- reference: the result is what that variable holds afterwards.
  unfoldable pub handle_new_order : ℕ → ℤ → ℕ → Bool → ℕ → Action ℕ
  unfolding match_levels rest_order
  handle_new_order quantity price flags notify filled = do
    require (ltb filled quantity) filled_over_quantity
    lv ← gets (levels (opposite (own side)))
    q ← match_levels (opposite (own side)) id side price lv (quantity - filled)
    rest_order price flags notify (quantity - filled) q
    pure q

  -- `new_order<true>`, which the broker calls with no filled quantity.
  unfoldable pub new_order : ℕ → ℤ → ℕ → ℕ → Action (Unit {0})
  unfolding handle_new_order
  new_order quantity price flags filled = do
    handle_new_order quantity price flags true filled >>= λ _. pure tt

-- `levels.find(price) != levels.end() && levels[price].head == nullptr`, and then the erase.
unfoldable pub drop_level : Ranking → ℤ → Action (Unit {0})
drop_level rk p l =
    put
      (if is_empty (find_level p (levels rk l))
        then with_side rk l.orders (erase_level p (levels rk l)) l
        else l)
      l

-- `delete_order<notify>`
unfoldable pub delete_order : Bool → ℕ → Action (Unit {0})
unfolding handle_delete_order drop_level
delete_order notify id l = elim (lookup id l.orders) [
  | none ↦ tell (on_cancel_reject id) l
  | some o ↦
      (do
        handle_delete_order (own o.side) id
        drop_level (own o.side) o.price
        tell_if notify (on_delete_order id true))
        l
]

-- `modify_order`
unfoldable pub modify_order : ℕ → Side → ℕ → ℤ → Action (Unit {0})
unfolding handle_new_order delete_order
modify_order id side quantity price l = elim (lookup id l.orders) [
  | none ↦ tell (on_cancel_reject id) l
  | some o ↦
      if leb quantity o.filled_quantity
      then delete_order true id l
      else if eqb_ℤ o.price price && same_side o.side side
      then (do
        put (record l { orders = insert id (record o { quantity = quantity }) l.orders })
        tell (on_modify_order id l.symbol side (quantity - o.filled_quantity) price))
          l
      else (do
        delete_order false id
        q ← handle_new_order id side quantity price o.flags false o.filled_quantity
        tell
            (if ltb 0 q then on_modify_order id l.symbol side q price else on_delete_order id true))
          l
]
