-- ===== src/Ladder/Strike.antt =====
-- `delete_order` (matching_engine/order_ladder.H): one order goes out of its queue, and its level with
-- it if that was the last.
use mathlib.Core.Path.{subst}
use mathlib.Core.Bool.{false≢true}
use ndfex.Prelude.{
  Bool, ℕ, ◌≡◌, refl, sym, inl, inr, true, false, List, [], ◌∷◌, ◌++◌, some, arith, ◌==◌,
  if◌then◌else◌, Bool-cases, Option-cases,
}
use ndfex.Prelude.Int.{ℤ, eqb_ℤ, eq_of_parts}
use ndfex.Prelude.Map.{Map, lookup, erase, lookup-erase}
use ndfex.Ladder.State.{
  Event, tell_if, Order, Ranking, Levels, Ladder, with_side, ok, levels-with_side, orders-with_side,
  with_side-with_side, ◌>>◌,
}
use ndfex.Ladder.Levels.{find_level, set_level, erase_level, unlink, is_empty}
use ndfex.Ladder.Match.{handle_delete_order}
use ndfex.Ladder.Operations.{drop_level}
use ndfex.Ladder.Book.{
  has, stands, IsAt, IsQueue, IsLevels, IsListed, Leads, Keeps, orders_at, resting,
}
use ndfex.Ladder.Book.Frame.{
  IsQueue-Agrees, orders_at-Agrees, Resting-of_has, off_level, erase-Keeps, erase-Agrees,
  resting-behind, IsLevels-behind,
}

unfoldable pub remove_order : ℕ → List Order → List Order
remove_order id [] = []
remove_order id (o ∷ os) = if o.order_id == id then os else o ∷ remove_order id os

-- The level at `x`, or none where its queue is used up.
abbrev pub level_of : ℤ → List ℕ → Levels → Levels
level_of x [] lv = lv
level_of x (id ∷ ids) lv = (x, id ∷ ids) ∷ lv

pub strike : ℤ → ℕ → Levels → Levels
strike p id [] = []
strike p id ((x, ids) ∷ lv) =
    if eqb_ℤ x p then level_of x (unlink id ids) lv else (x, ids) ∷ strike p id lv

-- Both halves of `delete_order`, at a listed order.
drop-strike :
    (p : ℤ) (id : ℕ) (ids : List ℕ) (lv : Levels)
    → find_level p lv ≡ some ids
    → (if is_empty (find_level p (set_level p (unlink id ids) lv))
        then erase_level p (set_level p (unlink id ids) lv)
        else set_level p (unlink id ids) lv)
      ≡ strike p id lv
unfolding find_level set_level erase_level strike
drop-strike p id ids [] h = cc
drop-strike p id ids ((x, ids') ∷ lv) h = ground (arith, drop-strike p id ids lv)

pub delete-strike :
    (rk : Ranking) (id : ℕ) (o : Order) (os : Map Order) (lv : Levels) (l : Ladder) (b : Bool)
    (call : Event)
    → lookup id os ≡ some o
    → stands id (find_level o.price lv) ≡ true
    → (handle_delete_order rk id >> (drop_level rk o.price >> tell_if b call))
        (with_side rk os lv l)
      ≡ (ok tt, with_side rk (erase id os) (strike o.price id lv) l, if b then call ∷ [] else [])
unfolding handle_delete_order drop_level
delete-strike rk id o os lv l b call e h = elim (Option-cases (find_level o.price lv)) [
  | inl missing ↦ ground arith
  | inr (ids, found) ↦ ground (
    arith,
    levels-with_side rk os lv l,
    orders-with_side rk os lv l,
    levels-with_side rk (erase id os) (set_level o.price (unlink id ids) lv) l,
    orders-with_side rk (erase id os) (set_level o.price (unlink id ids) lv) l,
    drop-strike o.price id ids lv found,
    with_side-with_side rk (erase id os) os (set_level o.price (unlink id ids) lv) lv l,
    with_side-with_side rk (erase id os) (erase id os) (strike o.price id lv)
        (set_level o.price (unlink id ids) lv) l,
  )
]

has-unlink-false : (id j : ℕ) (ids : List ℕ) → has j ids ≡ false → has j (unlink id ids) ≡ false
unfolding unlink
has-unlink-false id j [] h = h
has-unlink-false id j (x ∷ ids) h = ground (arith, has-unlink-false id j ids)

has-unlink_ne : (id j : ℕ) (ids : List ℕ) → (id == j) ≡ false → has j (unlink id ids) ≡ has j ids
unfolding unlink
has-unlink_ne id j [] h = refl
has-unlink_ne id j (x ∷ ids) h = ground (arith, has-unlink_ne id j ids h)

unlink-IsQueue :
    (os : Map Order) (rk : Ranking) (p : ℤ) (id : ℕ) (ids : List ℕ)
    → IsQueue os rk p ids
    → IsQueue os rk p (unlink id ids) × (has id (unlink id ids) ≡ false)
unfolding unlink
unlink-IsQueue os rk p id [] v = (tt, refl)
unlink-IsQueue os rk p id (x ∷ ids) (r, once, v) = elim (Bool-cases (x == id)) [
  | inl here ↦ rw here (v, ground arith)
  | inr there ↦
      let (v', gone) = unlink-IsQueue os rk p id ids v in
      rw there ((r, has-unlink-false id x ids once, v'), ground arith)
]

-- `remove_order` on the orders of a queue, by whether it holds the order.
remove_order-skip :
    (os : Map Order) (rk : Ranking) (p : ℤ) (id : ℕ) (ids : List ℕ) (below : List Order)
    → IsQueue os rk p ids
    → has id ids ≡ false
    → remove_order id (orders_at os ids ++ below) ≡ orders_at os ids ++ remove_order id below
unfolding remove_order
remove_order-skip os rk p id [] below v h = refl
remove_order-skip os rk p id (x ∷ ids) below ((o, e, at), once, v) h =
    ground (arith, remove_order-skip os rk p id ids below v, at.known)

remove_order-unlink :
    (os : Map Order) (rk : Ranking) (p : ℤ) (id : ℕ) (ids : List ℕ) (below : List Order)
    → IsQueue os rk p ids
    → has id ids ≡ true
    → remove_order id (orders_at os ids ++ below) ≡ orders_at os (unlink id ids) ++ below
unfolding remove_order unlink
remove_order-unlink os rk p id [] below v h = absurd (false≢true h)
remove_order-unlink os rk p id (x ∷ ids) below ((o, e, at), once, v) h =
    ground (arith, remove_order-unlink os rk p id ids below v, at.known)

-- The levels without one order.
module _ (os : Map Order) (rk : Ranking) (id : ℕ) (o : Order) (e : lookup id os ≡ some o)
    (at : IsAt rk o.price id o) where
  keeps : Keeps (off_level rk o.price) os (erase id os)
  keeps = erase-Keeps rk o.price id o os e at

  -- Another level does not hold the order.
  elsewhere :
      (p : ℤ) (ids : List ℕ) → eqb_ℤ p o.price ≡ false → IsQueue os rk p ids → has id ids ≡ false
  elsewhere p ids other v = elim (Bool-cases (has id ids)) [
    | inl here ↦
        let (x, ex, atx) = Resting-of_has os rk p id ids v here in ground (arith, atx.priced)
    | inr there ↦ there
  ]

  level_of-IsLevels :
      (p : ℤ) (ids : List ℕ) (lv : Levels)
      → IsQueue (erase id os) rk p ids
      → Leads rk p lv
      → IsLevels (erase id os) rk lv
      → IsLevels (erase id os) rk (level_of p ids lv)
  level_of-IsLevels p [] lv q b v = v
  level_of-IsLevels p (j ∷ ids) lv q b v = (λ h. cc, q, b, v)

  level_of-resting :
      (p : ℤ) (ids : List ℕ) (lv : Levels)
      → resting (erase id os) (level_of p ids lv)
        ≡ orders_at (erase id os) ids ++ resting (erase id os) lv
  level_of-resting p [] lv = refl
  level_of-resting p (j ∷ ids) lv = refl

  Leads-strike : (p : ℤ) (lv : Levels) → Leads rk p lv → Leads rk p (strike o.price id lv)
  unfolding strike
  Leads-strike p [] b = tt
  Leads-strike p ((x, ids) ∷ lv) (first, b) = ground (arith, Leads-strike p lv b)

  behind_here : (p : ℤ) (lv : Levels) → eqb_ℤ p o.price ≡ true → Leads rk p lv → Leads rk o.price lv
  behind_here p lv same b = subst (λ x. Leads rk x lv) (eq_of_parts p o.price (ground arith)) b

  pub strike-IsLevels :
      (lv : Levels) → IsLevels os rk lv → IsLevels (erase id os) rk (strike o.price id lv)
  unfolding strike
  strike-IsLevels [] v = tt
  strike-IsLevels ((p, ids) ∷ lv) (some_id, q, leads, v) = elim (Bool-cases (eqb_ℤ p o.price)) [
    | inl same ↦
        let (q', gone) = unlink-IsQueue os rk p id ids q in
        rw same (
          level_of-IsLevels p (unlink id ids) lv
            (IsQueue-Agrees os _ rk p _ (erase-Agrees id os (unlink id ids) gone) q') leads
            (IsLevels-behind os _ rk o.price keeps lv (behind_here p lv same leads) v))
    | inr other ↦ rw other (
      some_id,
      IsQueue-Agrees os _ rk p ids (erase-Agrees id os ids (elsewhere p ids other q)) q,
      Leads-strike p lv leads,
      strike-IsLevels lv v,
    )
  ]

  pub resting-strike :
      (lv : Levels)
      → IsLevels os rk lv
      → stands id (find_level o.price lv) ≡ true
      → resting (erase id os) (strike o.price id lv) ≡ remove_order id (resting os lv)
  unfolding strike find_level
  resting-strike [] v h = absurd (false≢true h)
  resting-strike ((p, ids) ∷ lv) (some_id, q, leads, v) h = elim (Bool-cases (eqb_ℤ p o.price)) [
    | inl same ↦
        let (q', gone) = unlink-IsQueue os rk p id ids q in
        rw
          (
            same,
            level_of-resting p (unlink id ids) lv,
            orders_at-Agrees os (erase id os) _ (erase-Agrees id os (unlink id ids) gone),
            resting-behind os _ rk o.price keeps lv (behind_here p lv same leads) v,
          )
          (sym (remove_order-unlink os rk p id ids (resting os lv) q (ground arith)))
    | inr other ↦
        rw
          (
            other,
            orders_at-Agrees os (erase id os) ids
                (erase-Agrees id os ids (elsewhere p ids other q)),
            resting-strike lv v (ground arith),
          )
          (sym (remove_order-skip os rk p id ids (resting os lv) q (elsewhere p ids other q)))
  ]

  stands-strike :
      (j : ℕ) (p : ℤ) (lv : Levels)
      → IsLevels os rk lv
      → (id == j) ≡ false
      → stands j (find_level p lv) ≡ true
      → stands j (find_level p (strike o.price id lv)) ≡ true
  unfolding strike find_level
  stands-strike j p [] v ne h = h
  stands-strike j p ((x, ids) ∷ lv) v ne h =
      ground (arith, stands-strike j p lv v.3 ne, has-unlink_ne id j ids ne)

  pub strike-IsListed :
      (lv : Levels)
      → IsLevels os rk lv
      → IsListed os rk lv
      → IsListed (erase id os) rk (strike o.price id lv)
  strike-IsListed lv v h j x ex s = elim (Bool-cases (id == j)) [
    | inl gone ↦ ground (arith, lookup-erase id j os)
    | inr other ↦
        stands-strike j x.price lv v other (h j x (ground (arith, lookup-erase id j os)) s)
  ]
