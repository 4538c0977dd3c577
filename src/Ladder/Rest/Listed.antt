-- ===== src/Ladder/Rest/Listed.antt =====
-- The end of `handle_new_order` (matching_engine/order_ladder.H): every order stays listed at its
-- price.
use ndfex.Prelude.{ℕ, ◌≡◌, ◌≢◌, inl, inr, true, [], ◌∷◌, arith, ◌==◌, Bool-cases}
use ndfex.Prelude.Int.{ℤ, eqb_ℤ, eq_of_parts}
use ndfex.Prelude.Map.{Map, insert, lookup-insert}
use ndfex.Ladder.State.{Order, Ranking, greater, less, opposite, own, Levels}
use ndfex.Ladder.Levels.{find_level}
use ndfex.Ladder.Book.{stands, IsLevels, IsListed}
use ndfex.Ladder.Rest.{queue_up, find_level-Leads, has-append, place}

stands-queue_up_self :
    (rk : Ranking) (p : ℤ) (id : ℕ) (lv : Levels)
    → stands id (find_level p (queue_up rk p id lv)) ≡ true
unfolding queue_up find_level
stands-queue_up_self rk p id [] = ground arith
stands-queue_up_self rk p id ((x, ids) ∷ lv) =
    ground (arith, stands-queue_up_self rk p id lv, has-append id id ids)

stands-queue_up :
    (rk : Ranking) (p p' : ℤ) (id j : ℕ) (os : Map Order) (lv : Levels)
    → IsLevels os rk lv
    → stands j (find_level p' lv) ≡ true
    → stands j (find_level p' (queue_up rk p id lv)) ≡ true
unfolding queue_up find_level
stands-queue_up rk p p' id j os [] v h = cc
stands-queue_up rk p p' id j os ((x, ids) ∷ lv) v h = elim (place rk p x) [
  | inl (same, priced, level) ↦ rw same (ground (arith, has-append j id ids))
  | inr (inl (other, first)) ↦
      rw (other, first)
        (elim (Bool-cases (eqb_ℤ p p')) [
          | inl here ↦
              let e : p ≡ p' = eq_of_parts p p' (ground arith) in
              let gone = find_level-Leads rk p x lv first v.2 in ground (arith, e, gone, other)
          | inr there ↦ rw there h
        ])
  | inr (inr (other, behind, after)) ↦
      rw (other, behind) (ground (arith, stands-queue_up rk p p' id j os lv v.3))
]

opposite-ne : (rk : Ranking) → opposite rk ≢ rk
opposite-ne greater e = cc
opposite-ne less e = cc

-- Every order is still listed, on both sides.
module _ (o : Order) (os : Map Order) (rk : Ranking) where
  pub queue_up-IsListed :
      (lv : Levels)
      → IsLevels os rk lv
      → IsListed os rk lv
      → IsListed (insert o.order_id o os) rk (queue_up rk o.price o.order_id lv)
  queue_up-IsListed lv v h j x e s = elim (Bool-cases (o.order_id == j)) [
    | inl new ↦
        ground
          (arith, lookup-insert o.order_id j o os, stands-queue_up_self rk o.price o.order_id lv)
    | inr old ↦
        stands-queue_up rk o.price x.price o.order_id j os lv v
          (h j x (ground (arith, lookup-insert o.order_id j o os)) s)
  ]

  pub insert-IsListed :
      (lv : Levels)
      → own o.side ≡ opposite rk
      → IsListed os rk lv
      → IsListed (insert o.order_id o os) rk lv
  insert-IsListed lv other h j x e s = elim (Bool-cases (o.order_id == j)) [
    | inl new ↦ absurd (opposite-ne rk (ground (arith, lookup-insert o.order_id j o os)))
    | inr old ↦ h j x (ground (arith, lookup-insert o.order_id j o os)) s
  ]
