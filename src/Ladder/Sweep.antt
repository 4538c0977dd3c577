-- ===== src/Ladder/Sweep.antt =====
-- The specification of matching, for matching_engine/order_ladder.H: an incoming order goes down the
-- resting orders of the other side in order of priority, and trades with each in full until its
-- limit or its quantity stops it; only the last one may be traded in part.
pub mod Quantity
pub mod Priority
use ndfex.Prelude.{
  ◌≤◌, ℕ, ◌-◌, ◌≡◌, refl, ◌≢◌, inl, inr, true, false, List, [], ◌∷◌, ◌++◌, arith, ltb, leb,
}
use ndfex.Prelude.Int.{ℤ}
use ndfex.Prelude.Map.{Map, insert, erase, lookup-insert}
use ndfex.Protocol.{Side}
use ndfex.Ladder.State.{Order, Ranking, Event}
use ndfex.Ladder.Match.{walked, returned, reduce, beyond}
use ndfex.Ladder.Book.{IsQueue, orders_at}
use ndfex.Ladder.Book.Frame.{IsQueue-Agrees, orders_at-Agrees, erase-Agrees, insert-Agrees}
use ndfex.Ladder.Walk.{
  Walked, walk, full_events, partial_events, match_cases, walk-nil, walk-spent, walk-full,
  walk-partial,
}

-- What is left of the resting orders and of the incoming quantity, and the calls that were made.
pub record Swept : Type 0 where
  pub left : List Order
  pub quantity : ℕ
  pub events : List Event

module _ (symbol incoming : ℕ) (side : Side) (limit : ℤ) where
  unfoldable pub sweep : List Order → ℕ → Swept
  sweep [] q = record { left = []; quantity = q; events = [] }
  sweep (o ∷ os) q = elim (ltb 0 q) [
    | false ↦ record { left = o ∷ os; quantity = q; events = [] }
    | true ↦ elim (beyond side limit o.price) [
      | true ↦ record { left = o ∷ os; quantity = q; events = [] }
      | false ↦ elim (leb o.quantity q) [
        | true ↦
            let s = sweep os (q - o.quantity) in
            record s { events = full_events symbol incoming side o (q - o.quantity) ++ s.events }
        | false ↦ record {
          left = reduce o q ∷ os;
          quantity = 0;
          events = partial_events symbol incoming side o q;
        }
      ]
    ]
  ]

  pub sweep-le : (os : List Order) (q : ℕ) → (sweep os q).quantity ≤ q
  unfolding sweep
  sweep-le [] q = omega arith
  sweep-le (o ∷ os) q = ground (arith, sweep-le os (q - o.quantity))

  pub sweep-nil : (q : ℕ) → sweep [] q ≡ record { left = []; quantity = q; events = [] }
  unfolding sweep
  sweep-nil q = refl

  pub sweep-spent :
      (os : List Order) (q : ℕ)
      → ltb 0 q ≡ false
      → sweep os q ≡ record { left = os; quantity = q; events = [] }
  unfolding sweep
  sweep-spent [] q h = refl
  sweep-spent (o ∷ os) q h = ground arith

  pub sweep-beyond :
      (rk : Ranking) (p : ℤ) (os : Map Order) (ids : List ℕ) (q : ℕ) (below : List Order)
      → beyond side limit p ≡ true
      → ids ≢ []
      → IsQueue os rk p ids
      → sweep (orders_at os ids ++ below) q
        ≡ record { left = orders_at os ids ++ below; quantity = q; events = [] }
  unfolding sweep
  sweep-beyond rk p os [] q below far some_id v = absurd (some_id refl)
  sweep-beyond rk p os (id ∷ ids) q below far some_id ((o, e, at), fresh, v) =
      let far_at : beyond side limit o.price ≡ true = rw at.priced far in ground arith

  -- The sweep goes on behind a level that is used up, and has ended in a level that is not.
  abbrev pub resume : Walked → List Order → Swept
  resume w below = elim w.queue [
    | [] ↦ elim w.result [
      | walked q ↦ let s = sweep below q in record s { events = w.events ++ s.events }
      | returned ↦ record { left = below; quantity = 0; events = w.events }
    ]
    | id ∷ ids ↦ record {
      left = orders_at w.orders (id ∷ ids) ++ below;
      quantity = 0;
      events = w.events;
    }
  ]

  pub resume-used :
      (w : Walked) (below : List Order) (q : ℕ)
      → w.queue ≡ []
      → w.result ≡ walked q
      → let s = sweep below q in resume w below ≡ record s { events = w.events ++ s.events }
  resume-used w below q none_left result = ground arith

  pub resume-left :
      (w : Walked) (below : List Order)
      → w.queue ≢ []
      → resume w below
        ≡ record { left = orders_at w.orders w.queue ++ below; quantity = 0; events = w.events }
  resume-left w below some_left = ground arith

  pub sweep-walk :
      (rk : Ranking) (p : ℤ) (os : Map Order) (ids : List ℕ) (q : ℕ) (below : List Order)
      → beyond side limit p ≡ false
      → IsQueue os rk p ids
      → sweep (orders_at os ids ++ below) q ≡ resume (walk symbol incoming side os ids q) below
  unfolding sweep
  sweep-walk rk p os [] q below near v = rw (walk-nil symbol incoming side os 0 [] q)
  sweep-walk rk p os (id ∷ ids) q below near ((o, e, at), fresh, v) = elim (match_cases o q) [
    | inl spent ↦ rw (walk-spent symbol incoming side os id ids q spent) (ground (arith, near_at))
    | inr (inl (more, full)) ↦ rw (walk-full symbol incoming side os id ids q o e more full) (
        ground (
          arith,
          near_at,
          orders_at-Agrees os (erase id os) ids (erase-Agrees id os ids fresh),
          sweep-walk rk p (erase id os) ids (q - o.quantity) below near
              (IsQueue-Agrees os (erase id os) rk p ids (erase-Agrees id os ids fresh) v),
        ))
    | inr (inr (more, larger)) ↦
        rw (walk-partial symbol incoming side os id ids q o e more larger) (
          ground (
            arith,
            near_at,
            lookup-insert id id (reduce o q) os,
            orders_at-Agrees os (insert id (reduce o q) os) ids
                (insert-Agrees id (reduce o q) os ids fresh),
          ))
  ]
    where
      near_at : beyond side limit o.price ≡ false
      near_at = rw at.priced near
