-- ===== src/Bots/OrderBook/Best.antt =====
-- `get_best_bid` and `get_best_ask` (bots/order_book.cpp).
use ndfex.Prelude.{◌⊎◌, ◌<◌, ◌≡◌, ◌∙◌, inl, inr, true, [], ◌∷◌, arith, Bool-cases}
use ndfex.Prelude.Int.{ℤ, eqb_ℤ, eq_of_parts}
use ndfex.Ladder.State.{Ranking, greater, less, ahead}
use ndfex.Bots.OrderBook.{
  OrderBook, PriceLevel, Depths, find_depth, depth_at, depths, best, get_best_bid, get_best_ask,
}
use ndfex.Bots.OrderBook.Depths.{leads, well_formed}
use ndfex.Bots.OrderBook.Changes.{depth, IsTallied}

-- `l` is the level of a side with the best price, and shows the sum of its orders. Where the side has no
-- order, `l` is 0 at 0.
pub record IsTop (b : OrderBook) (rk : Ranking) (l : PriceLevel) : Type 0 where
  pub summed : 0 < l.quantity → l.quantity ≡ depth b.orders rk l.price
  pub first : (p : ℤ) → 0 < depth b.orders rk p → (l.price ≡ p) ⊎ (ahead rk l.price p ≡ true)
  pub shown : (p : ℤ) → 0 < depth b.orders rk p → 0 < l.quantity

find_depth-behind :
    (rk : Ranking) (x p : ℤ) (ds : Depths)
    → leads rk x ds ≡ true
    → 0 < depth_at p ds
    → ahead rk x p ≡ true
unfolding find_depth
find_depth-behind rk x p [] h some_depth = absurd (omega arith)
find_depth-behind greater x p ((y, m) ∷ ds) h some_depth =
    ground (arith, find_depth-behind greater x p ds)
find_depth-behind less x p ((y, m) ∷ ds) h some_depth =
    ground (arith, find_depth-behind less x p ds)

best-summed :
    (ds : Depths) → 0 < (best ds).quantity → (best ds).quantity ≡ depth_at (best ds).price ds
unfolding find_depth
best-summed [] h = absurd (omega arith)
best-summed ((x, m) ∷ ds) h = ground arith

best-first :
    (rk : Ranking) (p : ℤ) (ds : Depths)
    → well_formed rk ds ≡ true
    → 0 < depth_at p ds
    → ((best ds).price ≡ p) ⊎ (ahead rk (best ds).price p ≡ true)
unfolding find_depth
best-first rk p [] f h = absurd (omega arith)
best-first rk p ((x, m) ∷ ds) f h = elim (Bool-cases (eqb_ℤ x p)) [
  | inl same ↦ inl (eq_of_parts x p (ground arith))
  | inr other ↦ inr (find_depth-behind rk x p ds (ground arith) (ground (arith, other)))
]

best-shown :
    (rk : Ranking) (p : ℤ) (ds : Depths)
    → well_formed rk ds ≡ true
    → 0 < depth_at p ds
    → 0 < (best ds).quantity
unfolding find_depth
best-shown rk p [] f h = absurd (omega arith)
best-shown rk p ((x, m) ∷ ds) f h = ground arith

best-IsTop : (b : OrderBook) (rk : Ranking) → IsTallied b → IsTop b rk (best (depths rk b))
best-IsTop b rk t =
    let exact = t.shows.exact rk in
    let ds = depths rk b in
    record {
      summed = λ h. best-summed ds h ∙ exact (best ds).price;
      first = λ p h. best-first rk p ds (t.shows.formed rk) (omega (arith, exact p));
      shown = λ p h. best-shown rk p ds (t.shows.formed rk) (omega (arith, exact p));
    }

-- Where each level of the book shows the sum of its orders, which fits 32 bits, and no order is
-- empty: `get_best_bid` and `get_best_ask` give, of the prices at which the side has orders, the
-- best, with the sum of its orders.
pub get_best_bid-IsTop :
    (b : OrderBook) → IsTallied b → IsTop b greater (get_best_bid b) × IsTop b less (get_best_ask b)
unfolding get_best_bid get_best_ask
get_best_bid-IsTop b t = (best-IsTop b greater t, best-IsTop b less t)
