-- ===== src/Ladder/Sweep/Quantity.antt =====
-- The quantities of matching (`match` of matching_engine/order_ladder.H): nothing is made or lost.
use ndfex.Prelude.{ℕ, ◌+◌, ◌-◌, ◌≡◌, Bool, true, false, List, [], ◌∷◌, arith}
use ndfex.Prelude.Int.{ℤ}
use ndfex.Protocol.{Side}
use ndfex.Ladder.State.{
  Order, Event, on_trade, on_fill, on_new_order, on_modify_order, on_delete_order, on_cancel_reject,
}
use ndfex.Ladder.Sweep.{sweep}

-- The open quantity of a list of orders.
unfoldable pub total : List Order → ℕ
total [] = 0
total (o ∷ os) = o.quantity + total os

-- The quantity of the trades among the calls.
unfoldable pub traded : List Event → ℕ
traded [] = 0
traded (on_trade id n p ∷ es) = n + traded es
traded (on_fill id symbol side n p flag taker ∷ es) = traded es
traded (on_new_order id symbol side n p flags ∷ es) = traded es
traded (on_modify_order id symbol side n p ∷ es) = traded es
traded (on_delete_order id expected ∷ es) = traded es
traded (on_cancel_reject id ∷ es) = traded es

-- The quantity of the fills among the calls: of the incoming order, or of the resting orders.
unfoldable pub filled : Bool → List Event → ℕ
filled b [] = 0
filled b (on_trade id n p ∷ es) = filled b es
filled true (on_fill id symbol side n p flag true ∷ es) = n + filled true es
filled true (on_fill id symbol side n p flag false ∷ es) = filled true es
filled false (on_fill id symbol side n p flag true ∷ es) = filled false es
filled false (on_fill id symbol side n p flag false ∷ es) = n + filled false es
filled b (on_new_order id symbol side n p flags ∷ es) = filled b es
filled b (on_modify_order id symbol side n p ∷ es) = filled b es
filled b (on_delete_order id expected ∷ es) = filled b es
filled b (on_cancel_reject id ∷ es) = filled b es

module _ (symbol incoming : ℕ) (side : Side) (limit : ℤ) where
  pub sweep-conserves :
      (os : List Order) (q : ℕ)
      → let s = sweep symbol incoming side limit os q in
        (traded s.events + s.quantity ≡ q)
        × (traded s.events + total s.left ≡ total os)
        × (filled true s.events ≡ traded s.events)
        × (filled false s.events ≡ traded s.events)
  unfolding sweep total traded filled
  sweep-conserves [] q = ground arith
  sweep-conserves (o ∷ os) q = ground (arith, sweep-conserves os (q - o.quantity))
