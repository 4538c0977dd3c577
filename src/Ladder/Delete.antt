-- ===== src/Ladder/Delete.antt =====
-- `delete_order` of matching_engine/order_ladder.H takes the named order out of the market, and nothing
-- else.
use mathlib.Core.Path.{subst}
use ndfex.Prelude.{ℕ, ◌≡◌, refl, Bool, true, [], ◌∷◌, some, arith, if◌then◌else◌}
use ndfex.Prelude.Map.{lookup, erase, lookup-erase}
use ndfex.Ladder.State.{Order, own, levels, Ladder, with_side, on_delete_order, ok}
use ndfex.Ladder.Operations.{delete_order}
use ndfex.Ladder.Book.{IsAt, IsBook, Keeps}
use ndfex.Ladder.Book.Frame.{Resting-stands, off_side, off_level-off_side, erase-Keeps}
use ndfex.Ladder.Strike.{
  strike, delete-strike, remove_order, strike-IsLevels, resting-strike, strike-IsListed,
}
use ndfex.Ladder.Market.{
  Market, view, orders_of, with_orders, Yields, one_side-IsBook, one_side-view, IsBook-levels,
  IsBook-IsListed, orders_of-view, with_side_self,
}

-- A listed order is at its level.
pub IsAt-listed :
    (id : ℕ) (o : Order) (l : Ladder)
    → IsBook l
    → lookup id l.orders ≡ some o
    → IsAt (own o.side) o.price id o
IsAt-listed id o l b e =
    let (x, ex, at) =
      Resting-stands l.orders (own o.side) o.price id (levels (own o.side) l)
        (IsBook-levels (own o.side) l b) (IsBook-IsListed (own o.side) l b id o e refl) in
    let same : x ≡ o = cc in subst (IsAt (own o.side) o.price id) same at

-- The market without the order.
abbrev pub cancelled : ℕ → Order → Market → Market
cancelled id o m = with_orders (own o.side) (remove_order id (orders_of (own o.side) m)) m

-- The method at an order of the ladder.
pub delete_order-strike :
    (notify : Bool) (id : ℕ) (o : Order) (l : Ladder)
    → IsBook l
    → lookup id l.orders ≡ some o
    → delete_order notify id l ≡ (
      ok tt,
      with_side (own o.side) (erase id l.orders) (strike o.price id (levels (own o.side) l)) l,
      if notify then on_delete_order id true ∷ [] else [],
    )
unfolding delete_order
delete_order-strike notify id o l b e =
    let run = rw (with_side_self (own o.side) l) at (
      delete-strike (own o.side) id o l.orders (levels (own o.side) l) l notify
        (on_delete_order id true) e (IsBook-IsListed (own o.side) l b id o e refl)) in
    ground (arith, run)

module _ (id : ℕ) (o : Order) (l : Ladder) (b : IsBook l) (e : lookup id l.orders ≡ some o) where
  erase-across : Keeps (off_side (own o.side)) l.orders (erase id l.orders)
  erase-across j x ex off =
      erase-Keeps (own o.side) o.price id o l.orders e (IsAt-listed id o l b e) j x ex
        (off_level-off_side (own o.side) o.price x off)

  erase-back : Keeps (off_side (own o.side)) (erase id l.orders) l.orders
  erase-back j x ex off = ground (arith, lookup-erase id j l.orders)

  pub strike-IsBook :
      IsBook
        (with_side (own o.side) (erase id l.orders) (strike o.price id (levels (own o.side) l)) l)
  strike-IsBook =
      one_side-IsBook (own o.side) _ _ l erase-across erase-back b
        (strike-IsLevels l.orders (own o.side) id o e (IsAt-listed id o l b e) _
          (IsBook-levels (own o.side) l b))
        (strike-IsListed l.orders (own o.side) id o e (IsAt-listed id o l b e) _
          (IsBook-levels (own o.side) l b) (IsBook-IsListed (own o.side) l b))

  pub strike-view :
      view
        (with_side (own o.side) (erase id l.orders) (strike o.price id (levels (own o.side) l)) l)
      ≡ cancelled id o (view l)
  strike-view = rw (
    one_side-view (own o.side) _ _ l erase-across erase-back b,
    resting-strike l.orders (own o.side) id o e (IsAt-listed id o l b e) _
        (IsBook-levels (own o.side) l b) (IsBook-IsListed (own o.side) l b id o e refl),
    orders_of-view (own o.side) l,
  )

-- At an order of a well-formed ladder, `delete_order` returns, leaves a well-formed ladder whose
-- market lacks just that order, and reports the deletion if it is to notify.
pub delete_order-cancels :
    (notify : Bool) (id : ℕ) (o : Order) (l : Ladder)
    → IsBook l
    → lookup id l.orders ≡ some o
    → Yields
        (delete_order notify id l)
        tt
        (cancelled id o (view l))
        (if notify then on_delete_order id true ∷ [] else [])
delete_order-cancels notify id o l b e = rw (delete_order-strike notify id o l b e) (record {
  returned = refl;
  book = strike-IsBook id o l b e;
  shows = strike-view id o l b e;
  calls = refl;
})
