-- ===== src/Bots/OrderBook/Tally.antt =====
-- The levels of `OrderBook` (bots/order_book.cpp) as sums: what each write of a level does to them.
use ndfex.Prelude.{
  ℕ, ◌+◌, ◌-◌, ◌<◌, ◌%◌, ◌^◌, ◌≡◌, refl, sym, ap, ◌∙◌, inl, inr, Bool, true, false, ◌&&◌, arith,
  ◌==◌, if◌then◌else◌, Bool-cases,
}
use ndfex.Prelude.Int.{ℤ, eqb_ℤ, eq_of_parts}
use ndfex.Ladder.State.{Ranking, greater, less, own}
use ndfex.Ladder.Book.{same_ranking}
use ndfex.Bots.OrderBook.{
  Depths, OrderBook, BookOrder, put_depth, erase_depth, depth_at, depth_of, depths, with_depths,
  add_quantity, take_quantity,
}
use ndfex.Bots.OrderBook.Depths.{
  well_formed, find_depth-put_depth, find_depth-erase_depth, well_formed-put_depth,
  well_formed-erase_depth,
}

-- The level of ranking `rk` at `p` is the level of ranking `rk'` at `p'`.
abbrev pub same_level : Ranking → ℤ → Ranking → ℤ → Bool
same_level rk p rk' p' = same_ranking rk rk' && eqb_ℤ p p'

-- What an order adds to a level.
abbrev pub weight : Ranking → ℤ → BookOrder → ℕ
weight rk p o = if same_level (own o.side) o.price rk p then o.quantity else 0

-- The levels of the book show these quantities.
pub record Shows (b : OrderBook) (W : Ranking → ℤ → ℕ) : Type 0 where
  pub formed : (rk : Ranking) → well_formed rk (depths rk b) ≡ true
  pub exact : (rk : Ranking) (p : ℤ) → depth_at p (depths rk b) ≡ W rk p

same_ranking-eq : (rk rk' : Ranking) → same_ranking rk rk' ≡ true → rk ≡ rk'
same_ranking-eq greater greater e = refl
same_ranking-eq less less e = refl
same_ranking-eq greater less e = cc
same_ranking-eq less greater e = cc

pub same_level-eq :
    (rk rk' : Ranking) (p p' : ℤ) → same_level rk p rk' p' ≡ true → (rk ≡ rk') × (p ≡ p')
same_level-eq rk rk' p p' e =
    (same_ranking-eq rk rk' (ground arith), eq_of_parts p p' (ground arith))

depths-same :
    (rk rk' : Ranking) (ds : Depths) (b : OrderBook)
    → same_ranking rk rk' ≡ true
    → depths rk' (with_depths rk ds b) ≡ ds
depths-same greater greater ds b e = refl
depths-same less less ds b e = refl
depths-same greater less ds b e = cc
depths-same less greater ds b e = cc

depths-other :
    (rk rk' : Ranking) (ds : Depths) (b : OrderBook)
    → same_ranking rk rk' ≡ false
    → depths rk' (with_depths rk ds b) ≡ depths rk' b
depths-other greater greater ds b e = cc
depths-other less less ds b e = cc
depths-other greater less ds b e = refl
depths-other less greater ds b e = refl

-- One level gets another quantity.
with_depths-Shows :
    (rk : Ranking) (p : ℤ) (ds : Depths) (b : OrderBook) (W W' : Ranking → ℤ → ℕ)
    → Shows b W
    → well_formed rk ds ≡ true
    → ((p' : ℤ) → depth_at p' ds ≡ (if eqb_ℤ p p' then W' rk p else depth_at p' (depths rk b)))
    → ((rk' : Ranking) (p' : ℤ) → same_level rk p rk' p' ≡ false → W' rk' p' ≡ W rk' p')
    → Shows (with_depths rk ds b) W'
with_depths-Shows rk p ds b W W' s f at others = record {
  formed = λ rk'. elim (Bool-cases (same_ranking rk rk')) [
    | inl same ↦
        ap (well_formed rk') (depths-same rk rk' ds b same)
        ∙ ap (λ r. well_formed r ds) (sym (same_ranking-eq rk rk' same))
        ∙ f
    | inr other ↦ ap (well_formed rk') (depths-other rk rk' ds b other) ∙ s.formed rk'
  ];
  exact = λ rk' p'. elim (Bool-cases (same_ranking rk rk')) [
    | inr other ↦
        ap (depth_at p') (depths-other rk rk' ds b other)
        ∙ s.exact rk' p'
        ∙ sym (others rk' p' (ground arith))
    | inl same ↦
        ap (depth_at p') (depths-same rk rk' ds b same) ∙ at p' ∙ elim (Bool-cases (eqb_ℤ p p')) [
          | inl here ↦
              (rw here refl)
              ∙ ap (λ x. W' rk x) (eq_of_parts p p' (ground arith))
              ∙ ap (λ r. W' r p') (same_ranking-eq rk rk' same)
          | inr there ↦
              (rw there refl)
              ∙ ap (λ r. depth_at p' (depths r b)) (same_ranking-eq rk rk' same)
              ∙ s.exact rk' p'
              ∙ sym (others rk' p' (ground arith))
        ]
  ];
}

pub depth_at-put_depth :
    (rk : Ranking) (p p' : ℤ) (n : ℕ) (ds : Depths)
    → depth_at p' (put_depth rk p n ds) ≡ (if eqb_ℤ p p' then n else depth_at p' ds)
depth_at-put_depth rk p p' n ds = elim (Bool-cases (eqb_ℤ p p')) [
  | inl here ↦ ap depth_of (find_depth-put_depth rk p p' n ds) ∙ (rw here refl)
  | inr there ↦ ap depth_of (find_depth-put_depth rk p p' n ds) ∙ (rw there refl)
]

depth_at-erase_depth :
    (rk : Ranking) (p p' : ℤ) (ds : Depths)
    → well_formed rk ds ≡ true
    → depth_at p' (erase_depth p ds) ≡ (if eqb_ℤ p p' then 0 else depth_at p' ds)
depth_at-erase_depth rk p p' ds f = elim (Bool-cases (eqb_ℤ p p')) [
  | inl here ↦ ap depth_of (find_depth-erase_depth rk p p' ds f) ∙ (rw here refl)
  | inr there ↦ ap depth_of (find_depth-erase_depth rk p p' ds f) ∙ (rw there refl)
]

module _ (rk : Ranking) (p : ℤ) (b : OrderBook) (W W' : Ranking → ℤ → ℕ) (s : Shows b W)
    (others : (rk' : Ranking) (p' : ℤ)
      → same_level rk p rk' p' ≡ false
      → W' rk' p' ≡ W rk' p') where
  pub put_depth-Shows :
      (n : ℕ) → 0 < n → W' rk p ≡ n → Shows (with_depths rk (put_depth rk p n (depths rk b)) b) W'
  put_depth-Shows n some_n e =
      with_depths-Shows rk p _ b W W' s
        (well_formed-put_depth rk p n (depths rk b) some_n (s.formed rk))
        (λ p'.
          depth_at-put_depth rk p p' n (depths rk b)
          ∙ ap (λ k. if eqb_ℤ p p' then k else depth_at p' (depths rk b)) (sym e))
        others

  pub erase_depth-Shows : W' rk p ≡ 0 → Shows (with_depths rk (erase_depth p (depths rk b)) b) W'
  erase_depth-Shows e =
      with_depths-Shows rk p _ b W W' s (well_formed-erase_depth rk p (depths rk b) (s.formed rk))
        (λ p'.
          depth_at-erase_depth rk p p' (depths rk b) (s.formed rk)
          ∙ ap (λ k. if eqb_ℤ p p' then k else depth_at p' (depths rk b)) (sym e))
        others

  pub add_quantity-Shows :
      (q : ℕ) → 0 < q → W' rk p ≡ W rk p + q → W' rk p < 2 ^ 32 → Shows (add_quantity rk p q b) W'
  unfolding add_quantity
  add_quantity-Shows q some_q e small =
      put_depth-Shows ((depth_at p (depths rk b) + q) % 2 ^ 32) (omega (arith, s.exact rk p, e))
        (omega (arith, s.exact rk p, e))

  pub take_quantity-Shows :
      (q : ℕ) → W' rk p + q ≡ W rk p → Shows (take_quantity rk p (W rk p) q b) W'
  unfolding take_quantity
  take_quantity-Shows q e = elim (Bool-cases (W rk p - q == 0)) [
    | inl used_up ↦ rw used_up (erase_depth-Shows (ground (arith, e)))
    | inr left ↦ rw left (put_depth-Shows (W rk p - q) (ground (arith, e)) (omega (arith, e)))
  ]
