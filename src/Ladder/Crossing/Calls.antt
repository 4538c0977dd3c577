-- ===== src/Ladder/Crossing/Calls.antt =====
-- Well-formed ladders (matching_engine/order_ladder.H) show both sides in order of price, and
-- `modify_order` too leaves no bid at or above an ask.
use mathlib.Core.List.{map}
use ndfex.Prelude.{
  ℕ, ◌-◌, ◌≡◌, refl, ap, ◌∙◌, inl, inr, Bool, true, false, not, ◌&&◌, ◌||◌, List, [], ◌∷◌, ◌++◌,
  some, arith, leb, ◌==◌, Bool-cases,
}
use ndfex.Prelude.Int.{ℤ, eqb_ℤ, eq_of_parts}
use ndfex.Prelude.Map.{Map, lookup}
use ndfex.Protocol.{Side, same_side}
use ndfex.Ladder.State.{levels, Order, Ranking, greater, less, ahead, own, Levels, Ladder}
use ndfex.Ladder.Book.{IsBook, IsQueue, IsLevels, Leads, orders_at, resting}
use ndfex.Ladder.Market.{Market, view, with_orders, orders_of, IsBook-levels, orders_of-view}
use ndfex.Ladder.Delete.{cancelled, IsAt-listed}
use ndfex.Ladder.Amend.{amended, requantified}
use ndfex.Ladder.Amend.Replace.{replaced}
use ndfex.Ladder.Crossing.{behind, ranked, apart, uncrossed, apart-swap}
use ndfex.Ladder.Crossing.Methods.{is_side, enter-uncrossed, cancelled-uncrossed}

module _ (os : Map Order) (rk : Ranking) where
  behind-orders_at :
      (p p' : ℤ) (ids : List ℕ) (below : List Order)
      → ahead rk p' p ≡ false
      → IsQueue os rk p' ids
      → behind rk p below ≡ true
      → behind rk p (orders_at os ids ++ below) ≡ true
  behind-orders_at p p' [] below h v b = b
  behind-orders_at p p' (id ∷ ids) below h ((o, e, at), once, v) b =
      let h' : ahead rk o.price p ≡ false = rw at.priced h in
      ground (arith, behind-orders_at p p' ids below h v b)

  behind-resting :
      (p : ℤ) (lv : Levels) → Leads rk p lv → IsLevels os rk lv → behind rk p (resting os lv) ≡ true
  behind-resting p [] h v = refl
  behind-resting p ((p', ids) ∷ lv) (first, h) (some_id, q, leads, v) =
      behind-orders_at p p' ids (resting os lv) (ahead_asym rk p p' first) q
        (behind-resting p lv h v)
    where
      ahead_asym : (r : Ranking) (a b : ℤ) → ahead r a b ≡ true → ahead r b a ≡ false
      ahead_asym greater a b e = ground arith
      ahead_asym less a b e = ground arith

  ahead_irrefl : (r : Ranking) (a : ℤ) → ahead r a a ≡ false
  ahead_irrefl greater a = ground arith
  ahead_irrefl less a = ground arith

  ranked-orders_at :
      (p : ℤ) (ids : List ℕ) (below : List Order)
      → IsQueue os rk p ids
      → behind rk p below ≡ true
      → ranked rk below ≡ true
      → ranked rk (orders_at os ids ++ below) ≡ true
  ranked-orders_at p [] below v b r = r
  ranked-orders_at p (id ∷ ids) below ((o, e, at), once, v) b r =
      let first : behind rk o.price (orders_at os ids ++ below) ≡ true =
        rw at.priced (behind-orders_at p p ids below (ahead_irrefl rk p) v b) in
      ground (arith, ranked-orders_at p ids below v b r)

  pub ranked-resting : (lv : Levels) → IsLevels os rk lv → ranked rk (resting os lv) ≡ true
  ranked-resting [] v = refl
  ranked-resting ((p, ids) ∷ lv) (some_id, q, leads, v) =
      ranked-orders_at p ids (resting os lv) q (behind-resting p lv leads v) (ranked-resting lv v)

-- The orders of the id `id` have the price `p`.
abbrev priced : ℕ → ℤ → List Order → Bool
priced id p [] = true
priced id p (x ∷ xs) = (not (x.order_id == id) || eqb_ℤ x.price p) && priced id p xs

module _ (os : Map Order) (rk : Ranking) (o : Order) (e : lookup o.order_id os ≡ some o) where
  priced-orders_at :
      (p : ℤ) (ids : List ℕ) (below : List Order)
      → IsQueue os rk p ids
      → priced o.order_id o.price below ≡ true
      → priced o.order_id o.price (orders_at os ids ++ below) ≡ true
  priced-orders_at p [] below v h = h
  priced-orders_at p (id ∷ ids) below ((x, ex, at), once, v) h =
      elim (Bool-cases (x.order_id == o.order_id)) [
        | inl same ↦
            let there : lookup id os ≡ some o = ground (arith, at.known) in
            ground (arith, priced-orders_at p ids below v h)
        | inr not_same ↦ ground (arith, priced-orders_at p ids below v h)
      ]

  priced-resting :
      (lv : Levels) → IsLevels os rk lv → priced o.order_id o.price (resting os lv) ≡ true
  priced-resting [] v = refl
  priced-resting ((p, ids) ∷ lv) (some_id, q, leads, v) =
      priced-orders_at p ids (resting os lv) q (priced-resting lv v)

module _ (rk : Ranking) (o : Order) (n : ℕ) where
  abbrev requantify : List Order → List Order
  requantify os = map (replaced (requantified o n)) os

  replaced-price :
      (x : Order)
      → (not (x.order_id == o.order_id) || eqb_ℤ x.price o.price) ≡ true
      → (replaced (requantified o n) x).price ≡ x.price
  replaced-price x h = elim (Bool-cases (x.order_id == o.order_id)) [
    | inl same ↦ rw same (eq_of_parts o.price x.price (ground arith))
    | inr not_same ↦ rw not_same refl
  ]

  behind-replaced :
      (p : ℤ) (os : List Order)
      → priced o.order_id o.price os ≡ true
      → behind rk p (requantify os) ≡ behind rk p os
  behind-replaced p [] h = refl
  behind-replaced p (x ∷ os) h =
      rw (replaced-price x (ground arith), behind-replaced p os (ground arith)) refl

  ranked-replaced :
      (os : List Order)
      → priced o.order_id o.price os ≡ true
      → ranked rk (requantify os) ≡ ranked rk os
  ranked-replaced [] h = refl
  ranked-replaced (x ∷ os) h =
      rw
        (
          replaced-price x (ground arith),
          behind-replaced x.price os (ground arith),
          ranked-replaced os (ground arith),
        )
        refl

  apart-replaced :
      (xs ys : List Order)
      → priced o.order_id o.price xs ≡ true
      → apart rk (requantify xs) ys ≡ apart rk xs ys
  apart-replaced [] ys h = refl
  apart-replaced (x ∷ xs) ys h =
      rw (replaced-price x (ground arith), apart-replaced xs ys (ground arith)) refl

module _ (o : Order) (n : ℕ) (m : Market) where
  replaced-uncrossed :
      (rk : Ranking)
      → priced o.order_id o.price (orders_of rk m) ≡ true
      → uncrossed m ≡ true
      → uncrossed (with_orders rk (map (replaced (requantified o n)) (orders_of rk m)) m) ≡ true
  replaced-uncrossed greater at h =
      rw (ranked-replaced greater o n m.bids at, apart-replaced greater o n m.bids m.asks at) h
  replaced-uncrossed less at h = ground (
    arith,
    ranked-replaced less o n m.asks at,
    apart-replaced less o n m.asks m.bids at,
    apart-swap less m.asks m.bids,
    apart-swap less (map (replaced (requantified o n)) m.asks) m.bids,
  )

module _ (id : ℕ) (o : Order) (l : Ladder) (b : IsBook l) (e : lookup id l.orders ≡ some o) where
  priced-view : priced o.order_id o.price (orders_of (own o.side) (view l)) ≡ true
  priced-view =
      let at = IsAt-listed id o l b e in
      rw (orders_of-view (own o.side) l) (
        priced-resting l.orders (own o.side) o (ap (λ j. lookup j l.orders) at.known ∙ e)
          (levels (own o.side) l) (IsBook-levels (own o.side) l b))

  pub amended-uncrossed :
      (side : Side) (quantity : ℕ) (price : ℤ)
      → is_side side ≡ true
      → uncrossed (view l) ≡ true
      → uncrossed (amended l.symbol id o side quantity price (view l)) ≡ true
  amended-uncrossed side quantity price valid h =
      elim (Bool-cases (leb quantity o.filled_quantity)) [
        | inl used_up ↦ rw used_up (cancelled-uncrossed id o (view l) h)
        | inr more ↦ elim (Bool-cases (eqb_ℤ o.price price && same_side o.side side)) [
          | inl in_place ↦
              rw (more, in_place)
                (replaced-uncrossed o quantity (view l) (own o.side) priced-view h)
          | inr moved ↦
              rw (more, moved)
                (enter-uncrossed l.symbol id side price o.flags false (quantity - o.filled_quantity)
                  (cancelled id o (view l)) valid (cancelled-uncrossed id o (view l) h))
        ]
      ]
