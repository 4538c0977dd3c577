-- ===== src/Ladder/Book/Frame.antt =====
-- Which writes to the orders of a ladder (matching_engine/order_ladder.H) leave a queue, the levels
-- behind it and the other side as they are.
use mathlib.Core.Path.{subst}
use mathlib.Core.Bool.{false≢true}
use ndfex.Ladder.Levels.{find_level}
use ndfex.Prelude.{
  ℕ, ◌≡◌, refl, sym, ◌∙◌, inl, inr, Bool, true, false, not, List, [], ◌∷◌, some, arith, ◌==◌,
  Bool-cases,
}
use ndfex.Prelude.Int.{ℤ, eqb_ℤ, eq_of_parts}
use ndfex.Prelude.Map.{Map, lookup, insert, erase, lookup-insert, lookup-erase}
use ndfex.Ladder.State.{Order, Ranking, greater, less, ahead, opposite, own, Levels}
use ndfex.Ladder.Book.{
  stands, has, same_ranking, is_at, IsAt, Resting, IsQueue, Leads, IsLevels, Keeps, orders_at,
  resting,
}

pub Resting-of_has :
    (os : Map Order) (rk : Ranking) (p : ℤ) (j : ℕ) (ids : List ℕ)
    → IsQueue os rk p ids
    → has j ids ≡ true
    → Resting os rk p j
Resting-of_has os rk p j [] v h = cc
Resting-of_has os rk p j (id ∷ ids) v h = elim (Bool-cases (id == j)) [
  | inl here ↦ subst (Resting os rk p) (ground arith) v.0
  | inr there ↦ Resting-of_has os rk p j ids v.2 (ground arith)
]

-- So does each id that stands in a level.
pub Resting-stands :
    (os : Map Order) (rk : Ranking) (p : ℤ) (j : ℕ) (lv : Levels)
    → IsLevels os rk lv
    → stands j (find_level p lv) ≡ true
    → Resting os rk p j
unfolding find_level
Resting-stands os rk p j [] v h = absurd (false≢true h)
Resting-stands os rk p j ((x, ids) ∷ lv) v h = elim (Bool-cases (eqb_ℤ x p)) [
  | inl here ↦
      subst (λ y. Resting os rk y j) (eq_of_parts x p (ground arith))
        (Resting-of_has os rk x j ids v.1 (ground arith))
  | inr there ↦ Resting-stands os rk p j lv v.3 (ground arith)
]

-- Two stores give the same values to the pointers of a queue.
abbrev pub Agrees : List ℕ → Map Order → Map Order → Type 0
Agrees ids os os' = (j : ℕ) → has j ids ≡ true → lookup j os' ≡ lookup j os

pub Agrees-tail :
    (id : ℕ) (ids : List ℕ) (os os' : Map Order) → Agrees (id ∷ ids) os os' → Agrees ids os os'
Agrees-tail id ids os os' a j h = a j (ground arith)

pub Agrees-head :
    (id : ℕ) (ids : List ℕ) (os os' : Map Order)
    → Agrees (id ∷ ids) os os'
    → lookup id os' ≡ lookup id os
Agrees-head id ids os os' a = a id (ground arith)

pub IsQueue-Agrees :
    (os os' : Map Order) (rk : Ranking) (p : ℤ) (ids : List ℕ)
    → Agrees ids os os'
    → IsQueue os rk p ids
    → IsQueue os' rk p ids
IsQueue-Agrees os os' rk p [] a v = tt
IsQueue-Agrees os os' rk p (id ∷ ids) a (r, fresh, v) = (
  (r.0, Agrees-head id ids os os' a ∙ r.1, r.2),
  fresh,
  IsQueue-Agrees os os' rk p ids (Agrees-tail id ids os os' a) v,
)

pub orders_at-Agrees :
    (os os' : Map Order) (ids : List ℕ) → Agrees ids os os' → orders_at os' ids ≡ orders_at os ids
orders_at-Agrees os os' [] a = refl
orders_at-Agrees os os' (id ∷ ids) a =
    ground (
      arith,
      Agrees-head id ids os os' a,
      orders_at-Agrees os os' ids (Agrees-tail id ids os os' a),
    )

-- A change of the store that keeps the orders of a queue agrees on the queue.
pub Agrees-Keeps :
    (test : Order → Bool) (os os' : Map Order) (rk : Ranking) (p : ℤ) (ids : List ℕ)
    → Keeps test os os'
    → ((id : ℕ) (o : Order) → IsAt rk p id o → test o ≡ true)
    → IsQueue os rk p ids
    → Agrees ids os os'
Agrees-Keeps test os os' rk p ids k passes v j h =
    let (o, e, at) = Resting-of_has os rk p j ids v h in k j o e (passes j o at) ∙ sym e

abbrev pub off_level : Ranking → ℤ → Order → Bool
off_level rk p o = not (is_at rk p o)

off_level-ahead :
    (rk : Ranking) (p p' : ℤ) (id : ℕ) (o : Order)
    → ahead rk p p' ≡ true
    → IsAt rk p' id o
    → off_level rk p o ≡ true
off_level-ahead greater p p' id o h at = ground (arith, at.priced)
off_level-ahead less p p' id o h at = ground (arith, at.priced)

abbrev pub off_side : Ranking → Order → Bool
off_side rk o = not (same_ranking (own o.side) rk)

pub off_level-off_side :
    (rk : Ranking) (p : ℤ) (o : Order) → off_side rk o ≡ true → off_level rk p o ≡ true
off_level-off_side rk p o h = ground arith

off_side-opposite :
    (rk : Ranking) (p : ℤ) (id : ℕ) (o : Order) → IsAt (opposite rk) p id o → off_side rk o ≡ true
off_side-opposite greater p id o at = ground (arith, at.sided)
off_side-opposite less p id o at = ground (arith, at.sided)

pub erase-Agrees :
    (id : ℕ) (os : Map Order) (ids : List ℕ) → has id ids ≡ false → Agrees ids os (erase id os)
erase-Agrees id os ids fresh j h = ground (arith, lookup-erase id j os)

pub insert-Agrees :
    (id : ℕ) (o : Order) (os : Map Order) (ids : List ℕ)
    → has id ids ≡ false
    → Agrees ids os (insert id o os)
insert-Agrees id o os ids fresh j h = ground (arith, lookup-insert id j o os)

-- A write to one pointer, seen from the others.
pub IsAt-on :
    (rk : Ranking) (p : ℤ) (id : ℕ) (o : Order) → IsAt rk p id o → off_level rk p o ≡ false
IsAt-on greater p id o at = ground (arith, at.sided, at.priced)
IsAt-on less p id o at = ground (arith, at.sided, at.priced)

pub insert-Keeps :
    (rk : Ranking) (p : ℤ) (id : ℕ) (o o' : Order) (os : Map Order)
    → lookup id os ≡ some o
    → IsAt rk p id o
    → Keeps (off_level rk p) os (insert id o' os)
insert-Keeps rk p id o o' os e at j x e' off =
    ground (arith, lookup-insert id j o' os, IsAt-on rk p id o at)

pub erase-Keeps :
    (rk : Ranking) (p : ℤ) (id : ℕ) (o : Order) (os : Map Order)
    → lookup id os ≡ some o
    → IsAt rk p id o
    → Keeps (off_level rk p) os (erase id os)
erase-Keeps rk p id o os e at j o' e' off =
    ground (arith, lookup-erase id j os, IsAt-on rk p id o at)

-- A change at one level leaves the levels behind it alone.
module _ (os os' : Map Order) (rk : Ranking) (p : ℤ) (k : Keeps (off_level rk p) os os') where
  pub IsLevels-behind : (lv : Levels) → Leads rk p lv → IsLevels os rk lv → IsLevels os' rk lv
  IsLevels-behind [] b v = tt
  IsLevels-behind ((p', ids) ∷ lv) (first, b) (some_id, q, leads, v) = (
    some_id,
    IsQueue-Agrees os os' rk p' ids
        (Agrees-Keeps (off_level rk p) os os' rk p' ids k
          (λ id o. off_level-ahead rk p p' id o first) q)
        q,
    leads,
    IsLevels-behind lv b v,
  )

  pub resting-behind :
      (lv : Levels) → Leads rk p lv → IsLevels os rk lv → resting os' lv ≡ resting os lv
  resting-behind [] b v = refl
  resting-behind ((p', ids) ∷ lv) (first, b) (some_id, q, leads, v) = rw (
    orders_at-Agrees os os' ids (
        Agrees-Keeps (off_level rk p) os os' rk p' ids k
          (λ id o. off_level-ahead rk p p' id o first) q),
    resting-behind lv b v,
  )

-- A change on one side leaves the levels of the other side alone.
module _ (os os' : Map Order) (rk : Ranking) (k : Keeps (off_side rk) os os') where
  Agrees-across : (p : ℤ) (ids : List ℕ) → IsQueue os (opposite rk) p ids → Agrees ids os os'
  Agrees-across p ids =
      Agrees-Keeps (off_side rk) os os' (opposite rk) p ids k (λ id o. off_side-opposite rk p id o)

  pub IsLevels-across : (lv : Levels) → IsLevels os (opposite rk) lv → IsLevels os' (opposite rk) lv
  IsLevels-across [] v = tt
  IsLevels-across ((p, ids) ∷ lv) (some_id, q, leads, v) = (
    some_id,
    IsQueue-Agrees os os' (opposite rk) p ids (Agrees-across p ids q) q,
    leads,
    IsLevels-across lv v,
  )

  pub resting-across : (lv : Levels) → IsLevels os (opposite rk) lv → resting os' lv ≡ resting os lv
  resting-across [] v = refl
  resting-across ((p, ids) ∷ lv) (some_id, q, leads, v) =
      rw (orders_at-Agrees os os' ids (Agrees-across p ids q), resting-across lv v)
