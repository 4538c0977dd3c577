-- ===== src/Ladder/State.antt =====
-- The data of `OrderLadder` (matching_engine/order_ladder.H), and the effects of its methods: they
-- change the ladder, call the subscriber, and may throw.
--
-- An `Order*` is written as the id of its order: `order_pool` hands out one node for each id in
-- `orders`, and takes it back when the id is erased, so a pointer is followed by a lookup. The
-- `next` and `prev` links of a price level are the order of the ids in its queue, head first.
use ndfex.Prelude.{ℕ, ◌≡◌, refl, Bool, List, [], ◌∷◌, ◌++◌, if◌then◌else◌}
use ndfex.Prelude.Int.{ℤ, ltb_ℤ}
use ndfex.Prelude.Map.{Map}
use ndfex.Protocol.{Side, buy, sell, other, FillFlag}

pub record Order : Type 0 where
  pub order_id : ℕ
  pub timestamp : ℕ
  pub quantity : ℕ
  pub filled_quantity : ℕ
  pub price : ℤ
  pub side : Side
  pub flags : ℕ

-- The comparison of a `std::map`: `std::greater` for the bids, `std::less` for the asks.
pub data Ranking : Type 0 where
  greater less : Ranking

-- `a` comes before `b` in the map's order.
abbrev pub ahead : Ranking → ℤ → ℤ → Bool
ahead greater a b = ltb_ℤ b a
ahead less a b = ltb_ℤ a b

abbrev pub opposite : Ranking → Ranking
opposite greater = less
opposite less = greater

-- The map in which an order of this side rests.
abbrev pub own : Side → Ranking
own buy = greater
own sell = less
own (other b) = less

-- `std::map<int32_t, PriceLevel>`, best price first.
abbrev pub Levels : Type 0
Levels = List (ℤ × List ℕ)

pub record Ladder : Type 0 where
  pub symbol : ℕ
  pub orders : Map Order
  pub buy_levels : Levels
  pub sell_levels : Levels

abbrev pub levels : Ranking → Ladder → Levels
levels greater l = l.buy_levels
levels less l = l.sell_levels

-- The ladder with other orders, and other levels on one side.
abbrev pub with_side : Ranking → Map Order → Levels → Ladder → Ladder
with_side greater os lv l = record l { orders = os; buy_levels = lv }
with_side less os lv l = record l { orders = os; sell_levels = lv }

pub orders-with_side :
    (rk : Ranking) (os : Map Order) (lv : Levels) (l : Ladder) → (with_side rk os lv l).orders ≡ os
orders-with_side greater os lv l = refl
orders-with_side less os lv l = refl

pub symbol-with_side :
    (rk : Ranking) (os : Map Order) (lv : Levels) (l : Ladder)
    → (with_side rk os lv l).symbol ≡ l.symbol
symbol-with_side greater os lv l = refl
symbol-with_side less os lv l = refl

pub levels-with_side :
    (rk : Ranking) (os : Map Order) (lv : Levels) (l : Ladder)
    → levels rk (with_side rk os lv l) ≡ lv
levels-with_side greater os lv l = refl
levels-with_side less os lv l = refl

pub with_side-with_side :
    (rk : Ranking) (os os' : Map Order) (lv lv' : Levels) (l : Ladder)
    → with_side rk os lv (with_side rk os' lv' l) ≡ with_side rk os lv l
with_side-with_side greater os os' lv lv' l = refl
with_side-with_side less os os' lv lv' l = refl

-- The calls of the `Subscriber`.
pub data Event : Type 0 where
  on_trade : ℕ → ℕ → ℤ → Event
  on_fill : ℕ → ℕ → Side → ℕ → ℤ → FillFlag → Bool → Event
  on_new_order : ℕ → ℕ → Side → ℕ → ℤ → ℕ → Event
  on_modify_order : ℕ → ℕ → Side → ℕ → ℤ → Event
  on_delete_order : ℕ → Bool → Event
  on_cancel_reject : ℕ → Event

-- The `std::runtime_error`s, and `dangling`: a pointer to an order that is not in `orders`.
pub data Error : Type 0 where
  filled_over_quantity order_exists impossible tail_is_null level_missing level_not_empty : Error
  dangling : Error

pub data Outcome {ℓ} (A : Type ℓ) : Type ℓ where
  ok : A → Outcome A
  threw : Error → Outcome A

-- What was done before a throw stays done.
abbrev pub Action : Type 0 → Type 0
Action A = Ladder → Outcome A × Ladder × List Event

infixl 5 ◌>>=◌ ◌>>◌
abbrev pub ◌>>=◌ : {A B : Type 0} → Action A → (A → Action B) → Action B
◌>>=◌ m f l =
    let (r, l', es) = m l in
    elim r [
      | ok a ↦ let (r', l'', es') = f a l' in (r', l'', es ++ es')
      | threw e ↦ (threw e, l', es)
    ]

abbrev pub ◌>>◌ : {B : Type 0} → Action (Unit {0}) → Action B → Action B
m >> k = m >>= λ _. k

abbrev pub pure : {A : Type 0} → A → Action A
pure a l = (ok a, l, [])

abbrev pub throw : {A : Type 0} → Error → Action A
throw e l = (threw e, l, [])

abbrev pub gets : {A : Type 0} → (Ladder → A) → Action A
gets f l = (ok (f l), l, [])

abbrev pub put : Ladder → Action (Unit {0})
put l _ = (ok tt, l, [])

abbrev pub tell : Event → Action (Unit {0})
tell e l = (ok tt, l, e ∷ [])

abbrev pub tell_if : Bool → Event → Action (Unit {0})
tell_if b e l = (ok tt, l, if b then e ∷ [] else [])

abbrev pub require : Bool → Error → Action (Unit {0})
require b e l = (if b then ok tt else threw e, l, [])
