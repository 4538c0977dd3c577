-- ===== src/Ladder/Crossing.antt =====
-- The state that matching keeps a market in (matching_engine/order_ladder.H): both sides stand in order
-- of price, and the best bid is below the best ask.
pub mod Methods
pub mod Calls
use mathlib.Core.List.{map}
use ndfex.Prelude.{
  ℕ, ◌<◌, ◌≡◌, refl, inl, inr, Bool, true, false, not, ◌&&◌, List, [], ◌∷◌, ◌++◌, arith, ltb, ◌==◌,
  if◌then◌else◌, Bool-cases,
}
use ndfex.Prelude.Int.{ℤ}
use ndfex.Protocol.{Side, buy, sell}
use ndfex.Ladder.State.{Order, Ranking, greater, less, ahead, opposite, own}
use ndfex.Ladder.Match.{beyond, reduce}
use ndfex.Ladder.Rest.{insert_order}
use ndfex.Ladder.Market.{Market}
use ndfex.Ladder.Sweep.{Swept, sweep}
use ndfex.Ladder.Sweep.Priority.{
  Taken, untouched, in_part, in_full, stops_at, sweep-Taken, sweep-stops,
}

-- `p` comes strictly before the price of every order.
abbrev pub clear : Ranking → ℤ → List Order → Bool
clear rk p [] = true
clear rk p (o ∷ os) = ahead rk p o.price && clear rk p os

-- No order comes strictly before `p`.
abbrev pub behind : Ranking → ℤ → List Order → Bool
behind rk p [] = true
behind rk p (o ∷ os) = not (ahead rk o.price p) && behind rk p os

abbrev pub ranked : Ranking → List Order → Bool
ranked rk [] = true
ranked rk (o ∷ os) = behind rk o.price os && ranked rk os

-- The orders `xs` of one side do not reach the orders `ys` of the other.
abbrev pub apart : Ranking → List Order → List Order → Bool
apart rk [] ys = true
apart rk (x ∷ xs) ys = clear (opposite rk) x.price ys && apart rk xs ys

abbrev pub uncrossed : Market → Bool
uncrossed m = ranked greater m.bids && (ranked less m.asks && apart greater m.bids m.asks)

apart-cons :
    (rk : Ranking) (xs : List Order) (y : Order) (ys : List Order)
    → apart rk xs (y ∷ ys) ≡ clear rk y.price xs && apart rk xs ys
apart-cons rk [] y ys = refl
apart-cons greater (x ∷ xs) y ys = ground (arith, apart-cons greater xs y ys)
apart-cons less (x ∷ xs) y ys = ground (arith, apart-cons less xs y ys)

apart-nil : (rk : Ranking) (xs : List Order) → apart rk xs [] ≡ true
apart-nil rk [] = refl
apart-nil rk (x ∷ xs) = apart-nil rk xs

pub apart-swap : (rk : Ranking) (xs ys : List Order) → apart (opposite rk) ys xs ≡ apart rk xs ys
apart-swap rk xs [] = ground (arith, apart-nil rk xs)
apart-swap greater xs (y ∷ ys) =
    ground (arith, apart-cons greater xs y ys, apart-swap greater xs ys)
apart-swap less xs (y ∷ ys) = ground (arith, apart-cons less xs y ys, apart-swap less xs ys)

-- Taking orders off keeps what holds of all of them.
module _ (side : Side) (limit : ℤ) (rk : Ranking) where
  clear-Taken :
      (p : ℤ) (os left : List Order)
      → Taken side limit os left
      → clear rk p os ≡ true
      → clear rk p left ≡ true
  clear-Taken p _ _ (untouched os) h = h
  clear-Taken p _ _ (in_part o q os near some_q less_q) h = h
  clear-Taken p _ _ (in_full o os left near t) h = clear-Taken p os left t (ground arith)

  behind-Taken :
      (p : ℤ) (os left : List Order)
      → Taken side limit os left
      → behind rk p os ≡ true
      → behind rk p left ≡ true
  behind-Taken p _ _ (untouched os) h = h
  behind-Taken p _ _ (in_part o q os near some_q less_q) h = h
  behind-Taken p _ _ (in_full o os left near t) h = behind-Taken p os left t (ground arith)

  pub ranked-Taken :
      (os left : List Order)
      → Taken side limit os left
      → ranked rk os ≡ true
      → ranked rk left ≡ true
  ranked-Taken _ _ (untouched os) h = h
  ranked-Taken _ _ (in_part o q os near some_q less_q) h = h
  ranked-Taken _ _ (in_full o os left near t) h = ranked-Taken os left t (ground arith)

  pub apart-Taken :
      (xs os left : List Order)
      → Taken side limit os left
      → apart rk xs os ≡ true
      → apart rk xs left ≡ true
  apart-Taken xs _ _ (untouched os) h = h
  apart-Taken xs _ _ (in_part o q os near some_q less_q) h =
      ground (arith, apart-cons rk xs o os, apart-cons rk xs (reduce o q) os)
  apart-Taken xs _ _ (in_full o os left near t) h =
      apart-Taken xs os left t (ground (arith, apart-cons rk xs o os))

clear-behind :
    (rk : Ranking) (p p' : ℤ) (os : List Order)
    → ahead rk p p' ≡ true
    → behind rk p' os ≡ true
    → clear rk p os ≡ true
clear-behind rk p p' [] h b = refl
clear-behind greater p p' (o ∷ os) h b = ground (arith, clear-behind greater p p' os)
clear-behind less p p' (o ∷ os) h b = ground (arith, clear-behind less p p' os)

-- Where matching stops at the limit, nothing is left that the limit reaches.
pub clear-stops :
    (rk : Ranking) (side : Side) (limit : ℤ) (os : List Order)
    → ((p : ℤ) → beyond side limit p ≡ ahead rk limit p)
    → ranked rk os ≡ true
    → stops_at side limit os ≡ true
    → clear rk limit os ≡ true
clear-stops rk side limit [] limits r s = refl
clear-stops rk side limit (o ∷ os) limits r s =
    ground (arith, limits o.price, clear-behind rk limit o.price os)

behind-insert_order :
    (rk : Ranking) (p : ℤ) (o : Order) (os : List Order)
    → behind rk p (insert_order rk o os) ≡ not (ahead rk o.price p) && behind rk p os
unfolding insert_order
behind-insert_order rk p o [] = refl
behind-insert_order rk p o (x ∷ os) = ground (arith, behind-insert_order rk p o os)

behind_trans :
    (rk : Ranking) (p p' : ℤ) (os : List Order)
    → ahead rk p p' ≡ true
    → behind rk p' os ≡ true
    → behind rk p os ≡ true
behind_trans rk p p' [] h b = refl
behind_trans greater p p' (o ∷ os) h b = ground (arith, behind_trans greater p p' os)
behind_trans less p p' (o ∷ os) h b = ground (arith, behind_trans less p p' os)

pub ranked-insert_order :
    (rk : Ranking) (o : Order) (os : List Order)
    → ranked rk os ≡ true
    → ranked rk (insert_order rk o os) ≡ true
unfolding insert_order
ranked-insert_order rk o [] h = refl
ranked-insert_order greater o (x ∷ os) h = ground (
  arith,
  ranked-insert_order greater o os,
  behind-insert_order greater x.price o os,
  behind_trans greater o.price x.price os,
)
ranked-insert_order less o (x ∷ os) h = ground (
  arith,
  ranked-insert_order less o os,
  behind-insert_order less x.price o os,
  behind_trans less o.price x.price os,
)

pub apart-insert_order :
    (rk : Ranking) (o : Order) (xs ys : List Order)
    → apart rk (insert_order rk o xs) ys ≡ clear (opposite rk) o.price ys && apart rk xs ys
unfolding insert_order
apart-insert_order rk o [] ys = refl
apart-insert_order rk o (x ∷ xs) ys = ground (arith, apart-insert_order rk o xs ys)
