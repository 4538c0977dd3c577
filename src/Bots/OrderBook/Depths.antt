-- ===== src/Bots/OrderBook/Depths.antt =====
-- The levels of `OrderBook` (bots/order_book.cpp): what reads see after writes, and the order of prices.
use ndfex.Prelude.{
  ℕ, ◌<◌, ◌≡◌, refl, Bool, true, ◌&&◌, [], ◌∷◌, none, some, arith, ltb, if◌then◌else◌,
}
use ndfex.Prelude.Int.{ℤ, eqb_ℤ}
use ndfex.Ladder.State.{Ranking, greater, less, ahead}
use ndfex.Bots.OrderBook.{Depths, find_depth, put_depth, erase_depth}

-- Every price of the list comes after `p`.
abbrev pub leads : Ranking → ℤ → Depths → Bool
leads rk p [] = true
leads rk p ((x, n) ∷ ds) = ahead rk p x && leads rk p ds

-- Prices in order, and no level that is empty.
abbrev pub well_formed : Ranking → Depths → Bool
well_formed rk [] = true
well_formed rk ((x, n) ∷ ds) = ltb 0 n && (leads rk x ds && well_formed rk ds)

pub find_depth-put_depth :
    (rk : Ranking) (p p' : ℤ) (n : ℕ) (ds : Depths)
    → find_depth p' (put_depth rk p n ds) ≡ (if eqb_ℤ p p' then some n else find_depth p' ds)
unfolding find_depth put_depth
find_depth-put_depth rk p p' n [] = refl
find_depth-put_depth rk p p' n ((x, m) ∷ ds) = ground (arith, find_depth-put_depth rk p p' n ds)

find_depth-leads :
    (rk : Ranking) (p x : ℤ) (ds : Depths)
    → eqb_ℤ x p ≡ true
    → leads rk x ds ≡ true
    → find_depth p ds ≡ none
unfolding find_depth
find_depth-leads rk p x [] e h = refl
find_depth-leads greater p x ((y, m) ∷ ds) e h = ground (arith, find_depth-leads greater p x ds)
find_depth-leads less p x ((y, m) ∷ ds) e h = ground (arith, find_depth-leads less p x ds)

pub find_depth-erase_depth :
    (rk : Ranking) (p p' : ℤ) (ds : Depths)
    → well_formed rk ds ≡ true
    → find_depth p' (erase_depth p ds) ≡ (if eqb_ℤ p p' then none else find_depth p' ds)
unfolding find_depth erase_depth
find_depth-erase_depth rk p p' [] h = ground arith
find_depth-erase_depth rk p p' ((x, m) ∷ ds) h =
    ground (arith, find_depth-erase_depth rk p p' ds, find_depth-leads rk p' x ds)

leads-put_depth :
    (rk : Ranking) (p x : ℤ) (n : ℕ) (ds : Depths)
    → ahead rk x p ≡ true
    → leads rk x ds ≡ true
    → leads rk x (put_depth rk p n ds) ≡ true
unfolding put_depth
leads-put_depth rk p x n [] e h = ground arith
leads-put_depth rk p x n ((y, m) ∷ ds) e h = ground (arith, leads-put_depth rk p x n ds)

leads_trans :
    (rk : Ranking) (p x : ℤ) (ds : Depths)
    → ahead rk p x ≡ true
    → leads rk x ds ≡ true
    → leads rk p ds ≡ true
leads_trans rk p x [] e h = refl
leads_trans greater p x ((y, m) ∷ ds) e h = ground (arith, leads_trans greater p x ds)
leads_trans less p x ((y, m) ∷ ds) e h = ground (arith, leads_trans less p x ds)

pub well_formed-put_depth :
    (rk : Ranking) (p : ℤ) (n : ℕ) (ds : Depths)
    → 0 < n
    → well_formed rk ds ≡ true
    → well_formed rk (put_depth rk p n ds) ≡ true
unfolding put_depth
well_formed-put_depth rk p n [] some_n h = ground arith
well_formed-put_depth greater p n ((x, m) ∷ ds) some_n h = ground (
  arith,
  well_formed-put_depth greater p n ds,
  leads-put_depth greater p x n ds,
  leads_trans greater p x ds,
)
well_formed-put_depth less p n ((x, m) ∷ ds) some_n h = ground (
  arith,
  well_formed-put_depth less p n ds,
  leads-put_depth less p x n ds,
  leads_trans less p x ds,
)

leads-erase_depth :
    (rk : Ranking) (p x : ℤ) (ds : Depths)
    → leads rk x ds ≡ true
    → leads rk x (erase_depth p ds) ≡ true
unfolding erase_depth
leads-erase_depth rk p x [] h = refl
leads-erase_depth rk p x ((y, m) ∷ ds) h = ground (arith, leads-erase_depth rk p x ds)

pub well_formed-erase_depth :
    (rk : Ranking) (p : ℤ) (ds : Depths)
    → well_formed rk ds ≡ true
    → well_formed rk (erase_depth p ds) ≡ true
unfolding erase_depth
well_formed-erase_depth rk p [] h = refl
well_formed-erase_depth rk p ((x, m) ∷ ds) h =
    ground (arith, well_formed-erase_depth rk p ds, leads-erase_depth rk p x ds)

erase_depth-leads :
    (rk : Ranking) (p : ℤ) (ds : Depths) → leads rk p ds ≡ true → erase_depth p ds ≡ ds
unfolding erase_depth
erase_depth-leads rk p [] h = refl
erase_depth-leads greater p ((y, m) ∷ ds) h = ground (arith, erase_depth-leads greater p ds)
erase_depth-leads less p ((y, m) ∷ ds) h = ground (arith, erase_depth-leads less p ds)

pub erase_depth-put_depth :
    (rk : Ranking) (p : ℤ) (n : ℕ) (ds : Depths)
    → well_formed rk ds ≡ true
    → erase_depth p (put_depth rk p n ds) ≡ erase_depth p ds
unfolding erase_depth put_depth
erase_depth-put_depth greater p n [] h = ground arith
erase_depth-put_depth less p n [] h = ground arith
erase_depth-put_depth greater p n ((x, m) ∷ ds) h = ground (
  arith,
  erase_depth-put_depth greater p n ds,
  erase_depth-leads greater p ds,
  leads_trans greater p x ds,
)
erase_depth-put_depth less p n ((x, m) ∷ ds) h =
    ground (
      arith,
      erase_depth-put_depth less p n ds,
      erase_depth-leads less p ds,
      leads_trans less p x ds,
    )
