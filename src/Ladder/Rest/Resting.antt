-- ===== src/Ladder/Rest/Resting.antt =====
-- The end of `handle_new_order` (matching_engine/order_ladder.H): the resting orders and the
-- well-formedness of a side once a new order is queued.
use mathlib.Core.List.{append_assoc}
use ndfex.Prelude.{
  ℕ, ◌<◌, ◌≡◌, refl, sym, ◌∙◌, ◌≢◌, inl, inr, true, false, List, [], ◌∷◌, ◌++◌, none, some, arith,
  Bool-cases,
}
use ndfex.Prelude.Int.{ℤ}
use ndfex.Prelude.Map.{Map, lookup, insert, lookup-insert}
use ndfex.Ladder.State.{Order, Ranking, greater, less, ahead, own, Levels}
use ndfex.Ladder.Book.{has, IsAt, IsQueue, IsLevels, Leads, orders_at, resting}
use ndfex.Ladder.Book.Frame.{
  Agrees, IsQueue-Agrees, orders_at-Agrees, Resting-of_has, Agrees-head, Agrees-tail,
}
use ndfex.Ladder.Rest.{queue_up, insert_order, has-append, place}

append-ne_nil : (id : ℕ) (ids : List ℕ) → ids ++ (id ∷ []) ≢ []
append-ne_nil id [] = cc
append-ne_nil id (x ∷ ids) = cc

Leads-trans :
    (rk : Ranking) (p x : ℤ) (lv : Levels) → ahead rk p x ≡ true → Leads rk x lv → Leads rk p lv
Leads-trans rk p x [] h b = tt
Leads-trans greater p x ((y, ids) ∷ lv) h (first, b) =
    (ground arith, Leads-trans greater p x lv h b)
Leads-trans less p x ((y, ids) ∷ lv) h (first, b) = (ground arith, Leads-trans less p x lv h b)

Leads-queue_up :
    (rk : Ranking) (p x : ℤ) (id : ℕ) (lv : Levels)
    → ahead rk x p ≡ true
    → Leads rk x lv
    → Leads rk x (queue_up rk p id lv)
unfolding queue_up
Leads-queue_up rk p x id [] h b = (h, tt)
Leads-queue_up rk p x id ((y, ids) ∷ lv) h (first, b) =
    ground (arith, Leads-queue_up rk p x id lv h b)

module _ (os : Map Order) (rk : Ranking) (p : ℤ) (o : Order) where
  insert_order-skip :
      (ids : List ℕ) (below : List Order)
      → ahead rk o.price p ≡ false
      → IsQueue os rk p ids
      → insert_order rk o (orders_at os ids ++ below) ≡ orders_at os ids ++ insert_order rk o below
  unfolding insert_order
  insert_order-skip [] below h v = refl
  insert_order-skip (id ∷ ids) below h ((x, e, at), once, v) =
      let behind : ahead rk o.price x.price ≡ false = rw at.priced h in
      ground (arith, insert_order-skip ids below h v)

  insert_order-front :
      (ids : List ℕ) (below : List Order)
      → ahead rk o.price p ≡ true
      → ids ≢ []
      → IsQueue os rk p ids
      → insert_order rk o (orders_at os ids ++ below) ≡ o ∷ (orders_at os ids ++ below)
  unfolding insert_order
  insert_order-front [] below h some_id v = absurd (some_id refl)
  insert_order-front (id ∷ ids) below h some_id ((x, e, at), once, v) =
      let first : ahead rk o.price x.price ≡ true = rw at.priced h in ground arith

insert_order-Leads :
    (os : Map Order) (rk : Ranking) (p : ℤ) (o : Order) (lv : Levels)
    → o.price ≡ p
    → Leads rk p lv
    → IsLevels os rk lv
    → insert_order rk o (resting os lv) ≡ o ∷ resting os lv
unfolding insert_order
insert_order-Leads os rk p o [] e b v = refl
insert_order-Leads os rk p o ((x, ids) ∷ lv) e (first, b) (some_id, q, leads, v) =
    insert_order-front os rk x o ids (resting os lv) (rw e first) some_id q

-- A new order leaves the others as they are.
module _ (o : Order) (os : Map Order) (fresh : lookup o.order_id os ≡ none) where
  insert-keeps :
      (j : ℕ) (x : Order) → lookup j os ≡ some x → lookup j (insert o.order_id o os) ≡ some x
  insert-keeps j x e = ground (arith, lookup-insert o.order_id j o os)

  Agrees-fresh :
      (rk : Ranking) (p : ℤ) (ids : List ℕ)
      → IsQueue os rk p ids
      → Agrees ids os (insert o.order_id o os)
  Agrees-fresh rk p ids v j h =
      let (x, e, at) = Resting-of_has os rk p j ids v h in insert-keeps j x e ∙ sym e

  pub IsLevels-fresh :
      (rk : Ranking) (lv : Levels) → IsLevels os rk lv → IsLevels (insert o.order_id o os) rk lv
  IsLevels-fresh rk [] v = tt
  IsLevels-fresh rk ((p, ids) ∷ lv) (some_id, q, leads, v) = (
    some_id,
    IsQueue-Agrees os _ rk p ids (Agrees-fresh rk p ids q) q,
    leads,
    IsLevels-fresh rk lv v,
  )

  pub resting-fresh :
      (rk : Ranking) (lv : Levels)
      → IsLevels os rk lv
      → resting (insert o.order_id o os) lv ≡ resting os lv
  resting-fresh rk [] v = refl
  resting-fresh rk ((p, ids) ∷ lv) (some_id, q, leads, v) =
      rw (orders_at-Agrees os _ ids (Agrees-fresh rk p ids q), resting-fresh rk lv v)

  has-fresh :
      (rk : Ranking) (p : ℤ) (ids : List ℕ) → IsQueue os rk p ids → has o.order_id ids ≡ false
  has-fresh rk p ids v = elim (Bool-cases (has o.order_id ids)) [
    | inl here ↦ let (x, e, at) = Resting-of_has os rk p o.order_id ids v here in cc
    | inr there ↦ there
  ]

  module _ (rk : Ranking) (sided : own o.side ≡ rk) (some_quantity : 0 < o.quantity) where
    new-IsAt : (p : ℤ) → o.price ≡ p → IsAt rk p o.order_id o
    new-IsAt p e = record { known = refl; priced = e; sided = sided; open_quantity = some_quantity }

    append-IsQueue :
        (p : ℤ) (ids : List ℕ)
        → o.price ≡ p
        → IsQueue os rk p ids
        → IsQueue (insert o.order_id o os) rk p (ids ++ (o.order_id ∷ []))
    append-IsQueue p [] e v =
        ((o, ground (arith, lookup-insert o.order_id o.order_id o os), new-IsAt p e), refl, tt)
    append-IsQueue p (id ∷ ids) e ((x, ex, at), once, v) = (
      (x, insert-keeps id x ex, at),
      rw (has-append id o.order_id ids) (ground (arith, insert-keeps id x ex)),
      append-IsQueue p ids e v,
    )

    orders_at-append :
        (ids : List ℕ)
        → Agrees ids os (insert o.order_id o os)
        → orders_at (insert o.order_id o os) (ids ++ (o.order_id ∷ []))
          ≡ orders_at os ids ++ (o ∷ [])
    orders_at-append [] a = ground (arith, lookup-insert o.order_id o.order_id o os)
    orders_at-append (id ∷ ids) a =
        ground (arith, Agrees-head id ids os _ a, orders_at-append ids (Agrees-tail id ids os _ a))

    queue_up-IsLevels_new :
        (p : ℤ) (ids : List ℕ) (lv : Levels)
        → ahead rk o.price p ≡ true
        → IsLevels os rk ((p, ids) ∷ lv)
        → IsLevels (insert o.order_id o os) rk ((o.price, o.order_id ∷ []) ∷ (p, ids) ∷ lv)
    queue_up-IsLevels_new p ids lv first v = (
      λ e. cc,
      append-IsQueue o.price [] refl tt,
      (first, Leads-trans rk o.price p lv first v.2),
      IsLevels-fresh rk ((p, ids) ∷ lv) v,
    )

    pub queue_up-IsLevels :
        (lv : Levels)
        → IsLevels os rk lv
        → IsLevels (insert o.order_id o os) rk (queue_up rk o.price o.order_id lv)
    unfolding queue_up
    queue_up-IsLevels [] v = (λ e. cc, append-IsQueue o.price [] refl tt, tt, tt)
    queue_up-IsLevels ((p, ids) ∷ lv) (some_id, q, leads, v) = elim (place rk o.price p) [
      | inl (same, priced, level) ↦ rw same (
        append-ne_nil o.order_id ids,
        append-IsQueue p ids priced q,
        leads,
        IsLevels-fresh rk lv v,
      )
      | inr (inl (other, first)) ↦
          rw (other, first) (queue_up-IsLevels_new p ids lv first (some_id, q, leads, v))
      | inr (inr (other, behind, after)) ↦
          rw (other, behind)
            (
              some_id,
              IsQueue-Agrees os _ rk p ids (Agrees-fresh rk p ids q) q,
              Leads-queue_up rk o.price p o.order_id lv after leads,
              queue_up-IsLevels lv v,
            )
    ]

    pub resting-queue_up :
        (lv : Levels)
        → IsLevels os rk lv
        → resting (insert o.order_id o os) (queue_up rk o.price o.order_id lv)
          ≡ insert_order rk o (resting os lv)
    unfolding queue_up insert_order
    resting-queue_up [] v = ground (arith, lookup-insert o.order_id o.order_id o os)
    resting-queue_up ((p, ids) ∷ lv) (some_id, q, leads, v) = elim (place rk o.price p) [
      | inl (same, priced, level) ↦
          rw
            (
              same,
              insert_order-skip os rk p o ids (resting os lv) level q,
              orders_at-append ids (Agrees-fresh rk p ids q),
              resting-fresh rk lv v,
              insert_order-Leads os rk p o lv priced leads v,
            )
            (append_assoc (orders_at os ids) (o ∷ []) (resting os lv))
      | inr (inl (other, first)) ↦
          rw (other, first, insert_order-front os rk p o ids (resting os lv) first some_id q)
            (ground (
              arith,
              lookup-insert o.order_id o.order_id o os,
              orders_at-Agrees os (insert o.order_id o os) ids (Agrees-fresh rk p ids q),
              resting-fresh rk lv v,
            ))
      | inr (inr (other, behind, after)) ↦ rw (
        other,
        behind,
        insert_order-skip os rk p o ids (resting os lv) behind q,
        orders_at-Agrees os _ ids (Agrees-fresh rk p ids q),
        resting-queue_up lv v,
      )
    ]
