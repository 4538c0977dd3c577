-- ===== src/Ladder/Rest.antt =====
-- The end of `handle_new_order` (matching_engine/order_ladder.H): a new order goes behind every order
-- of its side at its price or a better one.
pub mod Resting
pub mod Listed
use mathlib.Core.List.{append_assoc}
use ndfex.Prelude.{
  ◌⊎◌, ◌||◌, ℕ, ◌<◌, ◌≡◌, refl, sym, ◌∙◌, ◌≢◌, inl, inr, true, false, List, [], ◌∷◌, ◌++◌, none,
  some, arith, ◌==◌, if◌then◌else◌, Bool-cases, Option-cases,
}
use ndfex.Prelude.Int.{ℤ, eqb_ℤ, eq_of_parts}
use ndfex.Prelude.Map.{Map, lookup, insert, lookup-insert}
use ndfex.Ladder.State.{
  Order, Ranking, greater, less, ahead, opposite, own, Levels, Ladder, with_side, ok,
  levels-with_side, orders-with_side, with_side-with_side,
}
use ndfex.Ladder.Levels.{find_level, set_level, insert_level}
use ndfex.Ladder.Operations.{add_order}
use ndfex.Ladder.Book.{has, stands, IsAt, IsQueue, IsLevels, IsListed, Leads, orders_at, resting}
use ndfex.Ladder.Book.Frame.{
  Agrees, IsQueue-Agrees, orders_at-Agrees, Resting-of_has, Agrees-head, Agrees-tail,
}

-- The place of a new order: at the back of its level, or in a level of its own.
pub queue_up : Ranking → ℤ → ℕ → Levels → Levels
queue_up rk p id [] = (p, id ∷ []) ∷ []
queue_up rk p id ((p', ids) ∷ lv) =
    if eqb_ℤ p' p
    then (p', ids ++ (id ∷ [])) ∷ lv
    else if ahead rk p p'
    then (p, id ∷ []) ∷ (p', ids) ∷ lv
    else (p', ids) ∷ queue_up rk p id lv

-- Price, then age.
unfoldable pub insert_order : Ranking → Order → List Order → List Order
insert_order rk o [] = o ∷ []
insert_order rk o (x ∷ os) =
    if ahead rk o.price x.price then o ∷ x ∷ os else x ∷ insert_order rk o os

pub find_level-Leads :
    (rk : Ranking) (p p' : ℤ) (lv : Levels)
    → ahead rk p p' ≡ true
    → Leads rk p' lv
    → find_level p lv ≡ none
unfolding find_level
find_level-Leads rk p p' [] h b = refl
find_level-Leads greater p p' ((x, ids) ∷ lv) h (first, b) =
    ground (arith, find_level-Leads greater p p' lv h b)
find_level-Leads less p p' ((x, ids) ∷ lv) h (first, b) =
    ground (arith, find_level-Leads less p p' lv h b)

insert_level-queue_up :
    (rk : Ranking) (p : ℤ) (id : ℕ) (lv : Levels)
    → find_level p lv ≡ none
    → insert_level rk p (id ∷ []) lv ≡ queue_up rk p id lv
unfolding find_level insert_level queue_up
insert_level-queue_up rk p id [] h = refl
insert_level-queue_up rk p id ((x, ids) ∷ lv) h = ground (arith, insert_level-queue_up rk p id lv)

set_level-queue_up :
    (os : Map Order) (rk : Ranking) (p : ℤ) (id : ℕ) (ids : List ℕ) (lv : Levels)
    → IsLevels os rk lv
    → find_level p lv ≡ some ids
    → set_level p (ids ++ (id ∷ [])) lv ≡ queue_up rk p id lv
unfolding find_level set_level queue_up
set_level-queue_up os rk p id ids [] v h = cc
set_level-queue_up os rk p id ids ((x, ids') ∷ lv) v h =
    ground (arith, set_level-queue_up os rk p id ids lv v.3, find_level-Leads rk p x lv)

find_level-ne_nil :
    (os : Map Order) (rk : Ranking) (p : ℤ) (lv : Levels)
    → IsLevels os rk lv
    → find_level p lv ≢ some []
unfolding find_level
find_level-ne_nil os rk p [] v h = cc
find_level-ne_nil os rk p ((x, ids) ∷ lv) v h = ground (arith, find_level-ne_nil os rk p lv v.3)

pub add_order-queue_up :
    (rk : Ranking) (o : Order) (os : Map Order) (lv : Levels) (l : Ladder)
    → IsLevels os rk lv
    → add_order rk o (with_side rk os lv l)
      ≡ (ok tt, with_side rk (insert o.order_id o os) (queue_up rk o.price o.order_id lv) l, [])
unfolding add_order
add_order-queue_up rk o os lv l v = elim (Option-cases (find_level o.price lv)) [
  | inl missing ↦ ground (
    arith,
    levels-with_side rk os lv l,
    orders-with_side rk os lv l,
    insert_level-queue_up rk o.price o.order_id lv missing,
    with_side-with_side rk (insert o.order_id o os) os (queue_up rk o.price o.order_id lv) lv l,
  )
  | inr (ids, found) ↦ ground (
    arith,
    levels-with_side rk os lv l,
    orders-with_side rk os lv l,
    find_level-ne_nil os rk o.price lv v,
    set_level-queue_up os rk o.price o.order_id ids lv v found,
    with_side-with_side rk (insert o.order_id o os) os (queue_up rk o.price o.order_id lv) lv l,
  )
]

pub has-append : (j id : ℕ) (ids : List ℕ) → has j (ids ++ (id ∷ [])) ≡ has j ids || (id == j)
has-append j id [] = ground arith
has-append j id (x ∷ ids) = ground (arith, has-append j id ids)

-- Where a price stands to that of a level: in it, ahead of it, or behind it.
pub place :
    (rk : Ranking) (p x : ℤ)
    → ((eqb_ℤ x p ≡ true) × (p ≡ x) × (ahead rk p x ≡ false))
      ⊎ ((eqb_ℤ x p ≡ false) × (ahead rk p x ≡ true)
          ⊎ (eqb_ℤ x p ≡ false) × (ahead rk p x ≡ false) × (ahead rk x p ≡ true))
place greater p x = ground arith
place less p x = ground arith
