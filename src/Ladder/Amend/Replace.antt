-- ===== src/Ladder/Amend/Replace.antt =====
-- Setting the quantity of an order in place (`modify_order` of matching_engine/order_ladder.H)
-- leaves its queue, its level and its side as they are.
use mathlib.Core.List.{map, map-append}
use ndfex.Prelude.{
  ℕ, ◌≡◌, refl, sym, ◌∙◌, inl, inr, List, [], ◌∷◌, some, arith, ◌==◌, if◌then◌else◌, Bool-cases,
}
use ndfex.Prelude.Int.{ℤ}
use ndfex.Prelude.Map.{Map, lookup, insert, lookup-insert}
use ndfex.Ladder.State.{greater, less, Order, Ranking, own, levels, Levels, Ladder, with_side}
use ndfex.Ladder.Book.{
  same_ranking_refl, IsAt, IsBook, IsQueue, IsLevels, IsListed, resting, orders_at, Keeps,
}
use ndfex.Ladder.Book.Frame.{off_side, insert-Keeps, off_level-off_side}
use ndfex.Ladder.Delete.{IsAt-listed}

-- The orders with `o` in place of the one of its id.
abbrev pub replaced : Order → Order → Order
replaced o x = if x.order_id == o.order_id then o else x

-- A write to an order that leaves its id, its price and its side.
module _ (os : Map Order) (rk : Ranking) (id : ℕ) (o o' : Order) (e : lookup id os ≡ some o)
    (at : IsAt rk o.price id o) (at' : IsAt rk o.price id o') where
  replace-IsQueue :
      (p : ℤ) (ids : List ℕ) → IsQueue os rk p ids → IsQueue (insert id o' os) rk p ids
  replace-IsQueue p [] v = tt
  replace-IsQueue p (j ∷ ids) ((x, ex, atx), once, v) = elim (Bool-cases (id == j)) [
    | inl here ↦ (
      (
        o',
        ground (arith, lookup-insert id j o' os),
        record {
          known = at'.known ∙ ground arith;
          priced = at'.priced ∙ ground (arith, atx.priced);
          sided = at'.sided;
          open_quantity = at'.open_quantity;
        },
      ),
      once,
      replace-IsQueue p ids v,
    )
    | inr there ↦
        ((x, ground (arith, lookup-insert id j o' os), atx), once, replace-IsQueue p ids v)
  ]

  orders_at-replace :
      (p : ℤ) (ids : List ℕ)
      → IsQueue os rk p ids
      → orders_at (insert id o' os) ids ≡ map (replaced o') (orders_at os ids)
  orders_at-replace p [] v = refl
  orders_at-replace p (j ∷ ids) ((x, ex, atx), once, v) =
      ground (arith, lookup-insert id j o' os, orders_at-replace p ids v, atx.known, at'.known)

  pub replace-IsLevels : (lv : Levels) → IsLevels os rk lv → IsLevels (insert id o' os) rk lv
  replace-IsLevels [] v = tt
  replace-IsLevels ((p, ids) ∷ lv) (some_id, q, leads, v) =
      (some_id, replace-IsQueue p ids q, leads, replace-IsLevels lv v)

  pub resting-replace :
      (lv : Levels)
      → IsLevels os rk lv
      → resting (insert id o' os) lv ≡ map (replaced o') (resting os lv)
  resting-replace [] v = refl
  resting-replace ((p, ids) ∷ lv) (some_id, q, leads, v) =
      rw (orders_at-replace p ids q, resting-replace lv v)
        (sym (map-append (replaced o') (orders_at os ids) (resting os lv)))

  pub replace-IsListed : (lv : Levels) → IsListed os rk lv → IsListed (insert id o' os) rk lv
  replace-IsListed lv h j x ex s = elim (Bool-cases (id == j)) [
    | inl here ↦
        let same : x ≡ o' = ground (arith, lookup-insert id j o' os) in
        let listed = h id o e at.sided in ground (arith, same, listed, at'.priced)
    | inr there ↦ h j x (ground (arith, lookup-insert id j o' os)) s
  ]

pub insert-Keeps-side :
    (id : ℕ) (o o' : Order) (l : Ladder)
    → IsBook l
    → lookup id l.orders ≡ some o
    → Keeps (off_side (own o.side)) l.orders (insert id o' l.orders)
insert-Keeps-side id o o' l b e j x ex off =
    insert-Keeps (own o.side) o.price id o o' l.orders e (IsAt-listed id o l b e) j x ex
      (off_level-off_side (own o.side) o.price x off)

pub insert-Keeps-back :
    (id : ℕ) (o o' : Order) (l : Ladder)
    → own o'.side ≡ own o.side
    → Keeps (off_side (own o.side)) (insert id o' l.orders) l.orders
insert-Keeps-back id o o' l same j x ex off =
    ground (arith, lookup-insert id j o' l.orders, same_ranking_refl (own o.side))

pub with_side-orders :
    (rk : Ranking) (os : Map Order) (l : Ladder)
    → record l { orders = os } ≡ with_side rk os (levels rk l) l
with_side-orders greater os l = refl
with_side-orders less os l = refl
