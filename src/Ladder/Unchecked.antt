-- ===== src/Ladder/Unchecked.antt =====
-- A side byte that `md::SIDE` does not name, in `match` of matching_engine/order_ladder.H.
use ndfex.Prelude.{ℕ, ◌≡◌, refl, [], ◌∷◌, arith}
use ndfex.Prelude.Int.{ℤ}
use ndfex.Protocol.{other}
use ndfex.Ladder.State.{Ranking, Levels, Ladder}
use ndfex.Ladder.Match.{match_levels}

module _ (rk : Ranking) (incoming b : ℕ) (limit limit' : ℤ) where
  -- For a side byte that is neither BUY nor SELL, `match` does the same whatever the limit price
  -- is.
  pub match_levels-unlimited :
      (lv : Levels) (q : ℕ) (l : Ladder)
      → match_levels rk incoming (other b) limit lv q l
        ≡ match_levels rk incoming (other b) limit' lv q l
  unfolding match_levels
  match_levels-unlimited [] q l = refl
  match_levels-unlimited (level ∷ lv) q l = ground (arith, match_levels-unlimited lv)
