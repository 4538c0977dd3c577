-- ===== src/Bots/OrderBook/Sums.antt =====
-- The orders of `OrderBook` (bots/order_book.cpp) as sums: what each write of an order does to them.
use mathlib.Core.Path.{subst, subst₂}
use ndfex.Prelude.{
  ℕ, ◌+◌, ◌-◌, ◌≤◌, ◌<◌, ◌^◌, ◌≡◌, refl, sym, ap, ◌∙◌, inl, inr, none, some, arith, ◌==◌,
  Bool-cases,
}
use ndfex.Prelude.Int.{ℤ}
use ndfex.Prelude.Map.{
  Map, lookup, insert, erase, IsUnique, weight_of, weight_at, sum-insert, sum-erase, lookup-insert,
  lookup-erase,
}
use ndfex.Ladder.State.{Ranking, own}
use ndfex.Bots.OrderBook.{OrderBook, BookOrder}
use ndfex.Bots.OrderBook.Tally.{same_level, same_level-eq, weight, Shows}
use ndfex.Bots.OrderBook.Changes.{depth, IsTallied, weight-own, weight-other}

-- What an order under an id adds to a level.
pub held : ℕ → Map BookOrder → Ranking → ℤ → ℕ
held id os rk p = weight_at (weight rk p) id os

pub held-none :
    (id : ℕ) (os : Map BookOrder) (rk : Ranking) (p : ℤ) → lookup id os ≡ none → held id os rk p ≡ 0
unfolding held
held-none id os rk p e = ap (weight_of (weight rk p)) e

pub held-some :
    (id : ℕ) (o : BookOrder) (os : Map BookOrder) (rk : Ranking) (p : ℤ)
    → lookup id os ≡ some o
    → held id os rk p ≡ weight rk p o
unfolding held
held-some id o os rk p e = ap (weight_of (weight rk p)) e

pub depth-insert :
    (id : ℕ) (o : BookOrder) (os : Map BookOrder) (rk : Ranking) (p : ℤ)
    → depth (insert id o os) rk p + held id os rk p ≡ depth os rk p + weight rk p o
unfolding held
depth-insert id o os rk p = sum-insert (weight rk p) id o os

pub depth-erase :
    (id : ℕ) (os : Map BookOrder) (rk : Ranking) (p : ℤ)
    → IsUnique os
    → depth (erase id os) rk p + held id os rk p ≡ depth os rk p
unfolding held
depth-erase id os rk p u = sum-erase (weight rk p) id os u

pub room_for :
    (os os' : Map BookOrder) (o : BookOrder)
    → ((rk : Ranking) (p : ℤ) → depth os rk p < 2 ^ 32)
    → ((rk : Ranking) (p : ℤ) → depth os' rk p ≡ depth os rk p + weight rk p o)
    → depth os (own o.side) o.price + o.quantity < 2 ^ 32
    → (rk : Ranking) (p : ℤ) → depth os' rk p < 2 ^ 32
room_for os os' o small more room rk p = elim (Bool-cases (same_level (own o.side) o.price rk p)) [
  | inr other ↦ omega (arith, small rk p, more rk p, weight-other o rk p other)
  | inl same ↦
      let (r, x) = same_level-eq (own o.side) rk o.price p same in
      subst₂ (λ r' x'. depth os' r' x' < 2 ^ 32) r x
        (omega (arith, more (own o.side) o.price, weight-own o, room))
]

abbrev pub AllLive : Map BookOrder → Type 0
AllLive os = (id : ℕ) (o : BookOrder) → lookup id os ≡ some o → 0 < o.quantity

pub insert-AllLive :
    (id : ℕ) (o : BookOrder) (os : Map BookOrder)
    → 0 < o.quantity
    → AllLive os
    → AllLive (insert id o os)
insert-AllLive id o os some_quantity live id' o' found = elim (Bool-cases (id == id')) [
  | inl same ↦
      let e : some o ≡ some o' = sym (lookup-insert id id' o os ∙ (rw same refl)) ∙ found in
      let same_order : o ≡ o' = cc in subst (λ x. 0 < x.quantity) same_order some_quantity
  | inr other ↦ live id' o' (sym (lookup-insert id id' o os ∙ (rw other refl)) ∙ found)
]

pub erase-AllLive : (id : ℕ) (os : Map BookOrder) → AllLive os → AllLive (erase id os)
erase-AllLive id os live id' o' found = elim (Bool-cases (id == id')) [
  | inl same ↦ ground (arith, lookup-erase id id' os)
  | inr other ↦ live id' o' (sym (lookup-erase id id' os ∙ (rw other refl)) ∙ found)
]

-- A book with the orders `os` is tallied if its levels show them.
pub tallied :
    (os : Map BookOrder) (b : OrderBook)
    → b.orders ≡ os
    → IsUnique os
    → AllLive os
    → Shows b (depth os)
    → ((rk : Ranking) (p : ℤ) → depth os rk p < 2 ^ 32)
    → IsTallied b
tallied os b e unique live shows bounded = record {
  unique = subst IsUnique (sym e) unique;
  live = subst AllLive (sym e) live;
  shows = subst (λ k. Shows b (depth k)) (sym e) shows;
  bounded = subst (λ k. (rk : Ranking) (p : ℤ) → depth k rk p < 2 ^ 32) (sym e) bounded;
}

pub weight_split :
    (o : BookOrder) (q : ℕ) (rk : Ranking) (p : ℤ)
    → q ≤ o.quantity
    → weight rk p (record o { quantity = o.quantity - q }) + weight rk p (record o { quantity = q })
      ≡ weight rk p o
weight_split o q rk p h = elim (Bool-cases (same_level (own o.side) o.price rk p)) [
  | inl same ↦ rw same (omega arith)
  | inr other ↦ rw other refl
]
