-- ===== src/Ladder/Session.antt =====
-- Sequences of calls of `OrderLadder` (matching_engine/order_ladder.H), in the order in which the
-- broker's loop makes them, from the constructor on.
use mathlib.Core.List.{append-nil}
use ndfex.Prelude.{
  ℕ, ◌-◌, ◌≤◌, ◌<◌, ◌≡◌, refl, ap, ◌∙◌, inl, inr, Bool, true, List, [], ◌∷◌, ◌++◌, none, arith,
  Option-cases,
}
use ndfex.Prelude.Int.{ℤ}
use ndfex.Prelude.Map.{lookup}
use ndfex.Protocol.{Side}
use ndfex.Ladder.State.{
  Ladder, Event, Action, Outcome, ok, threw, on_cancel_reject, filled_over_quantity,
}
use ndfex.Ladder.Operations.{handle_new_order, new_order, delete_order, modify_order}
use ndfex.Ladder.Book.{IsBook}
use ndfex.Ladder.Market.{Market, view, Yields, enter}
use ndfex.Ladder.Delete.{delete_order-cancels}
use ndfex.Ladder.Enter.{handle_new_order-enters}
use ndfex.Ladder.Amend.{modify_order-amends}
use ndfex.Ladder.Crossing.{uncrossed}
use ndfex.Ladder.Crossing.Methods.{is_side, enter-uncrossed, cancelled-uncrossed}
use ndfex.Ladder.Crossing.Calls.{amended-uncrossed}

-- `OrderLadder(subscriber, symbol)`
unfoldable pub empty_ladder : ℕ → Ladder
empty_ladder symbol = record { symbol = symbol; orders = []; buy_levels = []; sell_levels = [] }

-- The calls of the broker.
pub data Call : Type 0 where
  new : ℕ → Side → ℕ → ℤ → ℕ → Call
  delete : ℕ → Call
  modify : ℕ → Side → ℕ → ℤ → Call

abbrev pub apply : Call → Action (Unit {0})
apply (new id side quantity price flags) = new_order id side quantity price flags 0
apply (delete id) = delete_order true id
apply (modify id side quantity price) = modify_order id side quantity price

-- What the ladder's callers owe it: a new id, some quantity, and a side that `md::SIDE` names. An
-- unknown id in a deletion or a modification is allowed.
abbrev pub Legal : Ladder → Call → Type 0
Legal l (new id side quantity price flags) =
    (lookup id l.orders ≡ none) × (0 < quantity) × (is_side side ≡ true)
Legal l (delete id) = Unit {0}
Legal l (modify id side quantity price) = is_side side ≡ true

pub record IsSound (l : Ladder) : Type 0 where
  pub book : IsBook l
  pub apart : uncrossed (view l) ≡ true

-- The call returned, to a sound ladder.
pub record Succeeds (r : Outcome (Unit {0}) × Ladder × List Event) : Type 0 where
  pub returned : r.0 ≡ ok tt
  pub sound : IsSound r.1

module _ (id : ℕ) (side : Side) (quantity : ℕ) (price : ℤ) (flags filled : ℕ) (l : Ladder) where
  new_order-handle :
      (q : ℕ)
      → let r = handle_new_order id side quantity price flags true filled l in
        r.0 ≡ ok q → new_order id side quantity price flags filled l ≡ (ok tt, r.1, r.2)
  unfolding new_order
  new_order-handle q returned =
      ground (arith, append-nil (handle_new_order id side quantity price flags true filled l).2)

  pub new_order-enters :
      IsBook l
      → lookup id l.orders ≡ none
      → filled < quantity
      → let n = enter l.symbol id side price flags true (quantity - filled) (view l) in
        Yields (new_order id side quantity price flags filled l) tt n.market n.events
  new_order-enters b fresh more =
      let y = handle_new_order-enters id side quantity price flags true filled l b fresh more in
      rw (new_order-handle _ y.returned)
        (record { returned = refl; book = y.book; shows = y.shows; calls = y.calls })

  -- The ladder, and the subscriber, see nothing of an order that is filled already.
  pub new_order-filled :
      quantity ≤ filled
      → new_order id side quantity price flags filled l ≡ (threw filled_over_quantity, l, [])
  unfolding new_order handle_new_order
  new_order-filled none_left = ground arith

Succeeds-Yields :
    (r : Outcome (Unit {0}) × Ladder × List Event) (m : Market) (es : List Event)
    → Yields r tt m es
    → uncrossed m ≡ true
    → Succeeds r
Succeeds-Yields r m es y h = record {
  returned = y.returned;
  sound = record { book = y.book; apart = ap uncrossed y.shows ∙ h };
}

delete_order-unknown :
    (notify : Bool) (id : ℕ) (l : Ladder)
    → lookup id l.orders ≡ none
    → delete_order notify id l ≡ (ok tt, l, on_cancel_reject id ∷ [])
unfolding delete_order
delete_order-unknown notify id l h = ground arith

modify_order-unknown :
    (id : ℕ) (side : Side) (quantity : ℕ) (price : ℤ) (l : Ladder)
    → lookup id l.orders ≡ none
    → modify_order id side quantity price l ≡ (ok tt, l, on_cancel_reject id ∷ [])
unfolding modify_order
modify_order-unknown id side quantity price l h = ground arith

pub apply-Succeeds : (c : Call) (l : Ladder) → IsSound l → Legal l c → Succeeds (apply c l)
apply-Succeeds (new id side quantity price flags) l s (fresh, some_quantity, valid) =
    Succeeds-Yields _ _ _
      (new_order-enters id side quantity price flags 0 l s.book fresh some_quantity)
      (enter-uncrossed l.symbol id side price flags true (quantity - 0) (view l) valid s.apart)
apply-Succeeds (delete id) l s legal = elim (Option-cases (lookup id l.orders)) [
  | inl unknown ↦
      rw (delete_order-unknown true id l unknown) (record { returned = refl; sound = s })
  | inr (o, e) ↦
      Succeeds-Yields _ _ _ (delete_order-cancels true id o l s.book e)
        (cancelled-uncrossed id o (view l) s.apart)
]
apply-Succeeds (modify id side quantity price) l s valid =
    elim (Option-cases (lookup id l.orders)) [
      | inl unknown ↦
          rw (modify_order-unknown id side quantity price l unknown)
            (record { returned = refl; sound = s })
      | inr (o, e) ↦
          Succeeds-Yields _ _ _ (modify_order-amends id o side quantity price l s.book e)
            (amended-uncrossed id o l s.book e side quantity price valid s.apart)
    ]

-- The ladders of a symbol after legal calls, with everything that the subscriber was called with.
pub data Reaches (symbol : ℕ) : Ladder → List Event → Type 0 where
  start : Reaches symbol (empty_ladder symbol) []
  call :
      (c : Call) (l : Ladder) (es : List Event)
      → Reaches symbol l es
      → Legal l c
      → Reaches symbol (apply c l).1 (es ++ (apply c l).2)

empty_ladder-IsSound : (symbol : ℕ) → IsSound (empty_ladder symbol)
unfolding empty_ladder lookup
empty_ladder-IsSound symbol = record {
  book = record { bids = tt; asks = tt; bids_listed = λ j o e s. cc; asks_listed = λ j o e s. cc };
  apart = refl;
}

-- After any sequence of legal calls on a new ladder (a new order has a new id, some quantity, and
-- a side that is BUY or SELL; a modification has such a side), the ladder is well formed, both
-- sides stand in order of price, and every bid is below every ask.
pub Reaches-IsSound : (symbol : ℕ) (l : Ladder) (es : List Event) → Reaches symbol l es → IsSound l
Reaches-IsSound symbol _ _ start = empty_ladder-IsSound symbol
Reaches-IsSound symbol _ _ (call c l es r legal) =
    (apply-Succeeds c l (Reaches-IsSound symbol l es r) legal).sound

-- After any sequence of legal calls on a new ladder, a further legal call throws no exception.
pub Reaches-returned :
    (symbol : ℕ) (l : Ladder) (es : List Event) (c : Call)
    → Reaches symbol l es
    → Legal l c
    → (apply c l).0 ≡ ok tt
Reaches-returned symbol l es c r legal =
    (apply-Succeeds c l (Reaches-IsSound symbol l es r) legal).returned
