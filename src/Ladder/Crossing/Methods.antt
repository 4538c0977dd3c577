-- ===== src/Ladder/Crossing/Methods.antt =====
-- The methods of `OrderLadder` (matching_engine/order_ladder.H), as the market specifies them, leave
-- no bid at or above an ask.
use ndfex.Prelude.{ℕ, ◌≡◌, refl, Bool, true, ◌||◌, List, [], ◌∷◌, arith, ltb}
use ndfex.Prelude.Int.{ℤ}
use ndfex.Protocol.{Side, buy, sell, other, is_buy, is_sell}
use ndfex.Ladder.State.{Order, Ranking, greater, less, ahead, opposite, own}
use ndfex.Ladder.Match.{beyond}
use ndfex.Ladder.Rest.{insert_order}
use ndfex.Ladder.Strike.{remove_order}
use ndfex.Ladder.Market.{Market, enter, new_order_of, with_orders, orders_of}
use ndfex.Ladder.Delete.{cancelled}
use ndfex.Ladder.Sweep.{Swept, sweep}
use ndfex.Ladder.Sweep.Priority.{sweep-Taken, sweep-stops}
use ndfex.Ladder.Crossing.{
  clear, behind, ranked, apart, uncrossed, ranked-Taken, apart-Taken, clear-stops,
  ranked-insert_order, apart-insert_order, apart-swap,
}

-- One of the two sides of `md::SIDE`.
abbrev pub is_side : Side → Bool
is_side side = is_buy side || is_sell side

limits :
    (side : Side) (limit p : ℤ)
    → is_side side ≡ true
    → beyond side limit p ≡ ahead (opposite (own side)) limit p
limits buy limit p h = ground arith
limits sell limit p h = ground arith
limits (other b) limit p h = cc

module _ (symbol incoming : ℕ) (side : Side) (limit : ℤ) (flags : ℕ) (valid : is_side side ≡ true)
    (xs ys : List Order) (q : ℕ) where
  abbrev swept : Swept
  swept = sweep symbol incoming side limit ys q

  sweep-ranked :
      ranked (opposite (own side)) ys ≡ true → ranked (opposite (own side)) swept.left ≡ true
  sweep-ranked =
      ranked-Taken side limit (opposite (own side)) ys swept.left
        (sweep-Taken symbol incoming side limit ys q)

  sweep-apart : apart (own side) xs ys ≡ true → apart (own side) xs swept.left ≡ true
  sweep-apart =
      apart-Taken side limit (own side) xs ys swept.left
        (sweep-Taken symbol incoming side limit ys q)

  sweep-clear :
      ranked (opposite (own side)) ys ≡ true
      → ltb 0 swept.quantity ≡ true
      → clear (opposite (own side)) limit swept.left ≡ true
  sweep-clear r more =
      clear-stops (opposite (own side)) side limit swept.left (λ p. limits side limit p valid)
        (sweep-ranked r) (sweep-stops symbol incoming side limit ys q (ground arith))

  abbrev fresh : Order
  fresh = new_order_of incoming side limit flags q swept.quantity

  placed-ranked :
      ranked (own side) xs ≡ true → ranked (own side) (insert_order (own side) fresh xs) ≡ true
  placed-ranked = ranked-insert_order (own side) fresh xs

  placed-apart :
      ranked (opposite (own side)) ys ≡ true
      → apart (own side) xs ys ≡ true
      → ltb 0 swept.quantity ≡ true
      → apart (own side) (insert_order (own side) fresh xs) swept.left ≡ true
  placed-apart r a more =
      rw (apart-insert_order (own side) fresh xs swept.left, sweep-clear r more) (sweep-apart a)

module _ (symbol id : ℕ) (side : Side) (price : ℤ) (flags : ℕ) (notify : Bool) (before : ℕ)
    (m : Market) where
  pub enter-uncrossed :
      is_side side ≡ true
      → uncrossed m ≡ true
      → uncrossed (enter symbol id side price flags notify before m).market ≡ true
  unfolding enter
  enter-uncrossed valid h = go side valid
    where
      go :
          (s : Side)
          → is_side s ≡ true
          → uncrossed (enter symbol id s price flags notify before m).market ≡ true
      go buy v = ground (
        arith,
        sweep-ranked symbol id buy price flags v m.bids m.asks before,
        sweep-apart symbol id buy price flags v m.bids m.asks before,
        placed-ranked symbol id buy price flags v m.bids m.asks before,
        placed-apart symbol id buy price flags v m.bids m.asks before,
      )
      go sell v = ground (
        arith,
        sweep-ranked symbol id sell price flags v m.asks m.bids before,
        sweep-apart symbol id sell price flags v m.asks m.bids before,
        placed-ranked symbol id sell price flags v m.asks m.bids before,
        placed-apart symbol id sell price flags v m.asks m.bids before,
        apart-swap less m.asks m.bids,
        apart-swap less m.asks (sweep symbol id sell price m.bids before).left,
        apart-swap less
            (insert_order less
              (new_order_of id sell price flags before
                (sweep symbol id sell price m.bids before).quantity)
              m.asks)
            (sweep symbol id sell price m.bids before).left,
      )
      go (other b) v = cc

-- Taking an order out, and setting the quantity of one, keep the prices that are left.
module _ (rk : Ranking) (id : ℕ) where
  clear-remove_order :
      (p : ℤ) (os : List Order) → clear rk p os ≡ true → clear rk p (remove_order id os) ≡ true
  unfolding remove_order
  clear-remove_order p [] h = refl
  clear-remove_order p (o ∷ os) h = ground (arith, clear-remove_order p os)

  behind-remove_order :
      (p : ℤ) (os : List Order) → behind rk p os ≡ true → behind rk p (remove_order id os) ≡ true
  unfolding remove_order
  behind-remove_order p [] h = refl
  behind-remove_order p (o ∷ os) h = ground (arith, behind-remove_order p os)

  ranked-remove_order :
      (os : List Order) → ranked rk os ≡ true → ranked rk (remove_order id os) ≡ true
  unfolding remove_order
  ranked-remove_order [] h = refl
  ranked-remove_order (o ∷ os) h =
      ground (arith, ranked-remove_order os, behind-remove_order o.price os)

  apart-remove_order :
      (xs ys : List Order) → apart rk xs ys ≡ true → apart rk (remove_order id xs) ys ≡ true
  unfolding remove_order
  apart-remove_order [] ys h = refl
  apart-remove_order (x ∷ xs) ys h = ground (arith, apart-remove_order xs ys)

pub cancelled-uncrossed :
    (id : ℕ) (o : Order) (m : Market) → uncrossed m ≡ true → uncrossed (cancelled id o m) ≡ true
cancelled-uncrossed id o m h = go (own o.side)
  where
    go : (rk : Ranking) → uncrossed (with_orders rk (remove_order id (orders_of rk m)) m) ≡ true
    go greater =
        ground (
          arith,
          ranked-remove_order greater id m.bids,
          apart-remove_order greater id m.bids m.asks,
        )
    go less = ground (
      arith,
      ranked-remove_order less id m.asks,
      apart-remove_order less id m.asks m.bids,
      apart-swap less m.asks m.bids,
      apart-swap less (remove_order id m.asks) m.bids,
    )
