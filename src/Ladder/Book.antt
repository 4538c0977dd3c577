-- ===== src/Ladder/Book.antt =====
-- The book as a trader sees it, for matching_engine/order_ladder.H: which ladders are well formed,
-- and the resting orders of one side in order of priority.
pub mod Frame
use mathlib.Core.Path.{subst}
use ndfex.Prelude.{
  refl, ℕ, ◌<◌, ◌≡◌, refl, sym, ◌∙◌, ◌≢◌, inl, inr, Bool, true, false, not, ◌&&◌, ◌||◌, List, [],
  ◌∷◌, ◌++◌, Option, none, some, arith, ◌==◌, Bool-cases,
}
use ndfex.Prelude.Int.{ℤ, eqb_ℤ}
use ndfex.Prelude.Map.{Map, lookup, insert, erase, lookup-insert, lookup-erase}
use ndfex.Ladder.State.{Order, Ranking, greater, less, ahead, opposite, own, Levels, Ladder}
use ndfex.Ladder.Levels.{find_level}

abbrev pub has : ℕ → List ℕ → Bool
has j [] = false
has j (id ∷ ids) = id == j || has j ids

abbrev pub same_ranking : Ranking → Ranking → Bool
same_ranking greater greater = true
same_ranking less less = true
same_ranking greater less = false
same_ranking less greater = false

-- The order belongs in the level at `p` of this side.
abbrev pub is_at : Ranking → ℤ → Order → Bool
is_at rk p o = same_ranking (own o.side) rk && eqb_ℤ o.price p

-- The order of a pointer in the level at `p`.
pub record IsAt (rk : Ranking) (p : ℤ) (id : ℕ) (o : Order) : Type 0 where
  pub known : o.order_id ≡ id
  pub priced : o.price ≡ p
  pub sided : own o.side ≡ rk
  pub open_quantity : 0 < o.quantity

abbrev pub Resting : Map Order → Ranking → ℤ → ℕ → Type 0
Resting os rk p id = (o : Order) × (lookup id os ≡ some o) × IsAt rk p id o

-- Each pointer of a queue is good, and none occurs twice.
abbrev pub IsQueue : Map Order → Ranking → ℤ → List ℕ → Type 0
IsQueue os rk p [] = Unit {0}
IsQueue os rk p (id ∷ ids) = Resting os rk p id × (has id ids ≡ false) × IsQueue os rk p ids

-- Every level of the list comes after `p`.
abbrev pub Leads : Ranking → ℤ → Levels → Type 0
Leads rk p [] = Unit {0}
Leads rk p ((p', ids) ∷ lv) = (ahead rk p p' ≡ true) × Leads rk p lv

-- Levels stand in order, and none is empty.
abbrev pub IsLevels : Map Order → Ranking → Levels → Type 0
IsLevels os rk [] = Unit {0}
IsLevels os rk ((p, ids) ∷ lv) =
    (ids ≢ []) × IsQueue os rk p ids × Leads rk p lv × IsLevels os rk lv

-- Every order that satisfies a test keeps its value from one store to the next.
abbrev pub Keeps : (Order → Bool) → Map Order → Map Order → Type 0
Keeps test os os' =
    (j : ℕ) (o : Order) → lookup j os ≡ some o → test o ≡ true → lookup j os' ≡ some o

abbrev pub stands : ℕ → Option (List ℕ) → Bool
stands j none = false
stands j (some ids) = has j ids

-- Every order of this side stands in the level of its price.
abbrev pub IsListed : Map Order → Ranking → Levels → Type 0
IsListed os rk lv =
    (j : ℕ) (o : Order)
    → lookup j os ≡ some o
    → own o.side ≡ rk
    → stands j (find_level o.price lv) ≡ true

-- The well-formed ladder.
pub record IsBook (l : Ladder) : Type 0 where
  pub bids : IsLevels l.orders greater l.buy_levels
  pub asks : IsLevels l.orders less l.sell_levels
  pub bids_listed : IsListed l.orders greater l.buy_levels
  pub asks_listed : IsListed l.orders less l.sell_levels

-- The orders of a queue, oldest first.
abbrev pub orders_at : Map Order → List ℕ → List Order
orders_at os [] = []
orders_at os (id ∷ ids) = elim (lookup id os) [
  | none ↦ orders_at os ids
  | some o ↦ o ∷ orders_at os ids
]

-- The orders of one side: by price, then by age.
abbrev pub resting : Map Order → Levels → List Order
resting os [] = []
resting os ((p, ids) ∷ lv) = orders_at os ids ++ resting os lv

pub same_ranking_refl : (rk : Ranking) → same_ranking rk rk ≡ true
same_ranking_refl greater = refl
same_ranking_refl less = refl
