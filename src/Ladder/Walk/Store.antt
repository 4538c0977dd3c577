-- ===== src/Ladder/Walk/Store.antt =====
-- What the inner loop of `OrderLadder::match` (matching_engine/order_ladder.H) does to the orders.
use mathlib.Core.Bool.{false≢true}
use ndfex.Prelude.{
  sym, ◌∙◌, Bool-cases, refl, ap, ◌⊎◌, ◌≢◌, ℕ, ◌-◌, ◌≡◌, refl, inl, inr, true, false, List, [], ◌∷◌,
  some, arith, leb, Option-cases,
}
use ndfex.Prelude.Int.{ℤ}
use ndfex.Prelude.Map.{Map, lookup, insert, erase, lookup-insert, lookup-erase}
use ndfex.Protocol.{Side}
use ndfex.Ladder.State.{Order, Ranking}
use ndfex.Ladder.Match.{walked, returned, reduce}
use ndfex.Ladder.Book.{has, IsAt, IsQueue, Keeps}
use ndfex.Ladder.Book.Frame.{
  IsAt-on, insert-Keeps, erase-Keeps, erase-Agrees, insert-Agrees, Resting-of_has, IsQueue-Agrees,
  off_level,
}
use ndfex.Ladder.Walk.{walk, match_cases, walk-nil, walk-spent, walk-full, walk-partial}

reduce-IsAt :
    (rk : Ranking) (p : ℤ) (id : ℕ) (o : Order) (q : ℕ)
    → IsAt rk p id o
    → leb o.quantity q ≡ false
    → IsAt rk p id (reduce o q)
reduce-IsAt rk p id o q at larger = record {
  known = at.known;
  priced = at.priced;
  sided = at.sided;
  open_quantity = ground arith;
}

module _ (symbol incoming : ℕ) (side : Side) (rk : Ranking) (p : ℤ) where
  -- The orders of other levels, and of the other side, stay as they are.
  pub walk-Keeps :
      (os : Map Order) (ids : List ℕ) (q : ℕ)
      → IsQueue os rk p ids
      → Keeps (off_level rk p) os (walk symbol incoming side os ids q).orders
  unfolding walk
  walk-Keeps os [] q v j o e off = e
  walk-Keeps os (id ∷ ids) q ((o, e, at), fresh, v) j o' e' off = ground (
    arith,
    erase-Keeps rk p id o os e at j o' e' off,
    insert-Keeps rk p id o (reduce o q) os e at j o' e' off,
    walk-Keeps (erase id os) ids (q - o.quantity)
        (IsQueue-Agrees os (erase id os) rk p ids (erase-Agrees id os ids fresh) v) j o',
  )

  -- The queue that is left is a good one.
  pub walk-IsQueue :
      (os : Map Order) (ids : List ℕ) (q : ℕ)
      → IsQueue os rk p ids
      → let w = walk symbol incoming side os ids q in IsQueue w.orders rk p w.queue
  walk-IsQueue os [] q v = rw (walk-nil symbol incoming side os 0 [] q) tt
  walk-IsQueue os (id ∷ ids) q (r, fresh, v) = elim (match_cases r.0 q) [
    | inl spent ↦ rw (walk-spent symbol incoming side os id ids q spent) (r, fresh, v)
    | inr (inl (more, full)) ↦ rw (walk-full symbol incoming side os id ids q r.0 r.1 more full) (
        walk-IsQueue (erase id os) ids (q - r.0.quantity)
          (IsQueue-Agrees os (erase id os) rk p ids (erase-Agrees id os ids fresh) v))
    | inr (inr (more, larger)) ↦
        rw (walk-partial symbol incoming side os id ids q r.0 r.1 more larger) (
          (
            reduce r.0 q,
            ground (arith, lookup-insert id id (reduce r.0 q) os),
            reduce-IsAt rk p id r.0 q r.2 larger,
          ),
          fresh,
          IsQueue-Agrees os (insert id (reduce r.0 q) os) rk p ids
              (insert-Agrees id (reduce r.0 q) os ids fresh) v,
        )
  ]

  pub walk-kept :
      (os : Map Order) (ids : List ℕ) (q j : ℕ)
      → has j ids ≡ false
      → lookup j (walk symbol incoming side os ids q).orders ≡ lookup j os
  unfolding walk
  walk-kept os [] q j h = refl
  walk-kept os (id ∷ ids) q j h = elim (Option-cases (lookup id os)) [
    | inl lost ↦ ground arith
    | inr (o, e) ↦ ground (
      arith,
      walk-kept (erase id os) ids (q - o.quantity) j,
      lookup-insert id j (reduce o q) os,
      lookup-erase id j os,
    )
  ]

  -- A pointer that is gone from the queue is gone from the store, and the others of the queue still
  -- belong to its level.
  pub walk-listed :
      (os : Map Order) (ids : List ℕ) (q : ℕ)
      → IsQueue os rk p ids
      → (j : ℕ) (o : Order) → has j ids ≡ true
      → lookup j (walk symbol incoming side os ids q).orders ≡ some o
      → has j (walk symbol incoming side os ids q).queue ≡ true
  walk-listed os [] q v j o h e = absurd (false≢true h)
  walk-listed os (id ∷ ids) q (r, fresh, v) j o h e = elim (match_cases r.0 q) [
    | inl spent ↦ rw (walk-spent symbol incoming side os id ids q spent) h
    | inr (inl (more, full)) ↦ rw (walk-full symbol incoming side os id ids q r.0 r.1 more full) (
        walk-listed (erase id os) ids (q - r.0.quantity)
          (IsQueue-Agrees os (erase id os) rk p ids (erase-Agrees id os ids fresh) v) j o
          (ground (
            arith,
            walk-kept (erase id os) ids (q - r.0.quantity) j,
            walk-full symbol incoming side os id ids q r.0 r.1 more full,
            lookup-erase id j os,
          ))
          (rw (walk-full symbol incoming side os id ids q r.0 r.1 more full) at e))
    | inr (inr (more, larger)) ↦
        rw (walk-partial symbol incoming side os id ids q r.0 r.1 more larger) h
  ]

-- Nor does an order of another level, or of the other side, come up.
pub walk-back :
    (symbol incoming : ℕ) (side : Side) (rk : Ranking) (p : ℤ) (os : Map Order) (ids : List ℕ)
    (q : ℕ)
    → IsQueue os rk p ids
    → Keeps (off_level rk p) (walk symbol incoming side os ids q).orders os
walk-back symbol incoming side rk p os ids q v j o e off = elim (Bool-cases (has j ids)) [
  | inl here ↦
      let w = walk symbol incoming side os ids q in
      let (o', e', at) =
        Resting-of_has w.orders rk p j w.queue (walk-IsQueue symbol incoming side rk p os ids q v)
          (walk-listed symbol incoming side rk p os ids q v j o here e) in
      ground (arith, IsAt-on rk p j o' at)
  | inr there ↦ sym (walk-kept symbol incoming side rk p os ids q j there) ∙ e
]

-- The loop ends in a queue that is used up, or with no quantity left.
pub walk_ends :
    (symbol incoming : ℕ) (side : Side) (rk : Ranking) (p : ℤ) (os : Map Order) (ids : List ℕ)
    (q : ℕ)
    → IsQueue os rk p ids
    → let w = walk symbol incoming side os ids q in
      ((w.queue ≡ []) × ((left : ℕ) × (w.result ≡ walked left)))
      ⊎ ((w.queue ≢ []) × ((w.result ≡ walked 0) ⊎ (w.result ≡ returned)))
walk_ends symbol incoming side rk p os [] q v =
    rw (walk-nil symbol incoming side os 0 [] q) (inl (refl, (q, refl)))
walk_ends symbol incoming side rk p os (id ∷ ids) q (r, fresh, v) = elim (match_cases r.0 q) [
  | inl spent ↦
      rw (walk-spent symbol incoming side os id ids q spent)
        (inr (λ e. cc, inl (ap walked (ground arith))))
  | inr (inl (more, full)) ↦ rw (walk-full symbol incoming side os id ids q r.0 r.1 more full) (
      walk_ends symbol incoming side rk p (erase id os) ids (q - r.0.quantity)
        (IsQueue-Agrees os (erase id os) rk p ids (erase-Agrees id os ids fresh) v))
  | inr (inr (more, larger)) ↦
      rw (walk-partial symbol incoming side os id ids q r.0 r.1 more larger)
        (inr (λ e. cc, inr refl))
]
