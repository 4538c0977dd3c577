-- ===== src/Ladder/Market.antt =====
-- The book as two lists of resting orders, best first: what matching_engine/order_ladder.H implements.
-- A method of the ladder is specified by the market and the calls that it leaves.
use ndfex.Prelude.{
  ℕ, ◌-◌, ◌≡◌, refl, Bool, true, false, not, ◌&&◌, List, [], ◌∷◌, ◌++◌, arith, ltb, if◌then◌else◌,
}
use ndfex.Prelude.Int.{ℤ}
use ndfex.Prelude.Map.{Map}
use ndfex.Protocol.{Side, is_ioc}
use ndfex.Ladder.State.{
  Order, Ranking, greater, less, opposite, own, Levels, levels, with_side, Ladder, Event,
  on_new_order, on_delete_order, Outcome, ok,
}
use ndfex.Ladder.Book.{IsLevels, IsListed, IsBook, resting, Keeps}
use ndfex.Ladder.Book.Frame.{off_side, IsLevels-across, resting-across}
use ndfex.Ladder.Rest.{insert_order}
use ndfex.Ladder.Sweep.{sweep}

pub record Market : Type 0 where
  pub bids : List Order
  pub asks : List Order

abbrev pub view : Ladder → Market
view l = record { bids = resting l.orders l.buy_levels; asks = resting l.orders l.sell_levels }

abbrev pub orders_of : Ranking → Market → List Order
orders_of greater m = m.bids
orders_of less m = m.asks

abbrev pub with_orders : Ranking → List Order → Market → Market
with_orders greater os m = record m { bids = os }
with_orders less os m = record m { asks = os }

-- The method returned `a`, and left a well-formed ladder that shows `m`, after the calls `es`.
pub record Yields {ℓ} {A : Type ℓ} (r : Outcome A × Ladder × List Event) (a : A) (m : Market)
    (es : List Event) : Type ℓ where
  pub returned : r.0 ≡ ok a
  pub book : IsBook r.1
  pub shows : view r.1 ≡ m
  pub calls : r.2 ≡ es

-- A well-formed ladder from its two sides, and back.
with_side-IsBook :
    (rk : Ranking) (os : Map Order) (lv : Levels) (l : Ladder)
    → IsLevels os rk lv
    → IsListed os rk lv
    → IsLevels os (opposite rk) (levels (opposite rk) l)
    → IsListed os (opposite rk) (levels (opposite rk) l)
    → IsBook (with_side rk os lv l)
with_side-IsBook greater os lv l a b c d = record {
  bids = a;
  asks = c;
  bids_listed = b;
  asks_listed = d;
}
with_side-IsBook less os lv l a b c d = record {
  bids = c;
  asks = a;
  bids_listed = d;
  asks_listed = b;
}

pub IsBook-levels : (rk : Ranking) (l : Ladder) → IsBook l → IsLevels l.orders rk (levels rk l)
IsBook-levels greater l b = b.bids
IsBook-levels less l b = b.asks

pub IsBook-IsListed : (rk : Ranking) (l : Ladder) → IsBook l → IsListed l.orders rk (levels rk l)
IsBook-IsListed greater l b = b.bids_listed
IsBook-IsListed less l b = b.asks_listed

view-with_side :
    (rk : Ranking) (os : Map Order) (lv : Levels) (l : Ladder)
    → resting os (levels (opposite rk) l) ≡ resting l.orders (levels (opposite rk) l)
    → view (with_side rk os lv l) ≡ with_orders rk (resting os lv) (view l)
view-with_side greater os lv l e = rw e
view-with_side less os lv l e = rw e

pub orders_of-view :
    (rk : Ranking) (l : Ladder) → orders_of rk (view l) ≡ resting l.orders (levels rk l)
orders_of-view greater l = refl
orders_of-view less l = refl

pub with_side_self : (rk : Ranking) (l : Ladder) → with_side rk l.orders (levels rk l) l ≡ l
with_side_self greater l = refl
with_side_self less l = refl

-- A change of one side's orders and levels, which keeps the orders of the other side.
module _ (rk : Ranking) (os : Map Order) (lv : Levels) (l : Ladder)
    (there : Keeps (off_side rk) l.orders os) (back : Keeps (off_side rk) os l.orders)
    (b : IsBook l) where
  off_side-own : (o : Order) → own o.side ≡ opposite rk → off_side rk o ≡ true
  off_side-own o e = go rk e
    where
      go : (r : Ranking) → own o.side ≡ opposite r → off_side r o ≡ true
      go greater e = ground arith
      go less e = ground arith

  pub one_side-IsBook : IsLevels os rk lv → IsListed os rk lv → IsBook (with_side rk os lv l)
  one_side-IsBook v h =
      with_side-IsBook rk os lv l v h
        (IsLevels-across l.orders os rk there _ (IsBook-levels (opposite rk) l b))
        (λ j o e s. IsBook-IsListed (opposite rk) l b j o (back j o e (off_side-own o s)) s)

  pub one_side-view : view (with_side rk os lv l) ≡ with_orders rk (resting os lv) (view l)
  one_side-view =
      view-with_side rk os lv l
        (resting-across l.orders os rk there _ (IsBook-levels (opposite rk) l b))

-- An incoming order: it trades, and what is left of it rests, unless it is immediate-or-cancel.
pub record Entered : Type 0 where
  pub market : Market
  pub remaining : ℕ
  pub events : List Event

abbrev pub new_order_of : ℕ → Side → ℤ → ℕ → ℕ → ℕ → Order
new_order_of id side price flags before q = record {
  order_id = id;
  timestamp = 0;
  quantity = q;
  filled_quantity = before - q;
  price = price;
  side = side;
  flags = flags;
}

-- `before` is the quantity that was matched with, `q` what is left of it.
abbrev pub placed : ℕ → Side → ℤ → ℕ → ℕ → ℕ → Market → Market
placed id side price flags before q m =
    if ltb 0 q && not (is_ioc flags)
    then with_orders (own side)
        (insert_order (own side) (new_order_of id side price flags before q)
          (orders_of (own side) m))
        m
    else m

module _ (symbol id : ℕ) (side : Side) (price : ℤ) (flags : ℕ) (notify : Bool) where
  -- The calls after the trades.
  abbrev pub closing_events : ℕ → List Event
  closing_events q =
      (if notify && not (is_ioc flags) then on_new_order id symbol side q price flags ∷ [] else [])
      ++ (if notify && (ltb 0 q && is_ioc flags) then on_delete_order id false ∷ [] else [])

  unfoldable pub enter : ℕ → Market → Entered
  enter before m =
      let s = sweep symbol id side price (orders_of (opposite (own side)) m) before in
      record {
        market =
            placed id side price flags before s.quantity
              (with_orders (opposite (own side)) s.left m);
        remaining = s.quantity;
        events = s.events ++ closing_events s.quantity;
      }
