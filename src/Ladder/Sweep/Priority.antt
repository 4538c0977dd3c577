-- ===== src/Ladder/Sweep/Priority.antt =====
-- Price-time priority of matching (`match` of matching_engine/order_ladder.H): which resting orders an
-- incoming order trades with, and why it stops.
use ndfex.Prelude.{
  ℕ, ◌-◌, ◌<◌, ◌≡◌, refl, Bool, inl, inr, true, false, List, [], ◌∷◌, arith, ltb, leb, Bool-cases,
}
use ndfex.Prelude.Int.{ℤ}
use ndfex.Protocol.{Side}
use ndfex.Ladder.State.{Order}
use ndfex.Ladder.Match.{beyond, reduce}
use ndfex.Ladder.Sweep.{sweep}

-- From the resting orders to those that a sweep leaves: orders are taken off the front, each within
-- the limit, and of the next one at most a part.
pub data Taken (side : Side) (limit : ℤ) : List Order → List Order → Type 0 where
  untouched : (os : List Order) → Taken side limit os os
  in_part :
      (o : Order) (q : ℕ) (os : List Order)
      → beyond side limit o.price ≡ false
      → 0 < q
      → q < o.quantity
      → Taken side limit (o ∷ os) (reduce o q ∷ os)
  in_full :
      (o : Order) (os left : List Order)
      → beyond side limit o.price ≡ false
      → Taken side limit os left
      → Taken side limit (o ∷ os) left

-- The first order is past the limit, or there is none.
abbrev pub stops_at : Side → ℤ → List Order → Bool
stops_at side limit [] = true
stops_at side limit (o ∷ os) = beyond side limit o.price

module _ (symbol incoming : ℕ) (side : Side) (limit : ℤ) where
  pub sweep-Taken :
      (os : List Order) (q : ℕ) → Taken side limit os (sweep symbol incoming side limit os q).left
  unfolding sweep
  sweep-Taken [] q = untouched []
  sweep-Taken (o ∷ os) q = elim (Bool-cases (ltb 0 q)) [
    | inr spent ↦ rw (spent, sweep) (untouched (o ∷ os))
    | inl more ↦ elim (Bool-cases (beyond side limit o.price)) [
      | inl far ↦ rw (more, far, sweep) (untouched (o ∷ os))
      | inr near ↦ elim (Bool-cases (leb o.quantity q)) [
        | inl full ↦
            rw (more, near, full, sweep) (in_full o os _ near (sweep-Taken os (q - o.quantity)))
        | inr part ↦
            rw (more, near, part, sweep) (in_part o q os near (ground arith) (ground arith))
      ]
    ]
  ]

  pub sweep-stops :
      (os : List Order) (q : ℕ)
      → 0 < (sweep symbol incoming side limit os q).quantity
      → stops_at side limit (sweep symbol incoming side limit os q).left ≡ true
  unfolding sweep
  sweep-stops [] q some_left = refl
  sweep-stops (o ∷ os) q some_left = ground (arith, sweep-stops os (q - o.quantity))
