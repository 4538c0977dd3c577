-- ===== src/Ladder/Refine.antt =====
-- `OrderLadder::match` (matching_engine/order_ladder.H) refines the sweep over the resting orders.
use mathlib.Core.List.{append-nil}
use ndfex.Prelude.{
  none, ◌⊎◌, ℕ, ◌≡◌, refl, sym, ◌∙◌, ◌≢◌, inl, inr, true, false, List, [], ◌∷◌, ◌++◌, arith, ltb,
  Bool-cases,
}
use ndfex.Prelude.Int.{ℤ}
use ndfex.Prelude.Map.{Map, lookup}
use ndfex.Protocol.{Side}
use ndfex.Ladder.State.{
  Order, Ranking, Levels, Ladder, with_side, levels, ok, levels-with_side, orders-with_side,
  with_side-with_side,
}
use ndfex.Ladder.Levels.{find_level, erase_level, is_empty}
use ndfex.Ladder.Match.{walked, returned, beyond, match_levels}
use ndfex.Ladder.Book.{has, IsQueue, IsLevels, IsListed, Keeps, resting}
use ndfex.Ladder.Book.Frame.{
  Resting-of_has, off_side, off_level-off_side, resting-behind, IsLevels-behind,
}
use ndfex.Ladder.Walk.{Walked, walk, match_orders-walk}
use ndfex.Ladder.Walk.Store.{walk-Keeps, walk-back, walk-kept, walk-IsQueue, walk-listed, walk_ends}
use ndfex.Ladder.Sweep.{
  Swept, sweep, resume, resume-used, resume-left, sweep-walk, sweep-nil, sweep-spent, sweep-beyond,
}

module _ (rk : Ranking) (incoming : ℕ) (side : Side) (limit : ℤ) where
  -- What the outer loop does to the levels `lv` of a ladder `l` with the orders `os`.
  pub record Matches (lv : Levels) (os : Map Order) (q : ℕ) (l : Ladder) (s : Swept) : Type 0 where
    pub after : Map Order
    pub left : Levels
    pub runs :
        match_levels rk incoming side limit lv q (with_side rk os lv l)
        ≡ (ok s.quantity, with_side rk after left l, s.events)
    pub refines : resting after left ≡ s.left
    pub valid : IsLevels after rk left
    pub listed : IsListed os rk lv → IsListed after rk left
    pub across : Keeps (off_side rk) os after
    pub back : Keeps (off_side rk) after os
    pub fresh : (j : ℕ) → lookup j os ≡ none → lookup j after ≡ none

  match_levels-stop :
      (lv : Levels) (os : Map Order) (q : ℕ) (l : Ladder)
      → IsLevels os rk lv
      → match_levels rk incoming side limit lv q (with_side rk os lv l)
        ≡ (ok q, with_side rk os lv l, [])
      → sweep l.symbol incoming side limit (resting os lv) q
        ≡ record { left = resting os lv; quantity = q; events = [] }
      → Matches lv os q l (sweep l.symbol incoming side limit (resting os lv) q)
  match_levels-stop lv os q l v runs stops = rw stops (record {
    after = os;
    left = lv;
    runs = runs;
    refines = refl;
    valid = v;
    listed = λ h. h;
    across = λ j o e off. e;
    back = λ j o e off. e;
    fresh = λ j e. e;
  })

  is_empty-head :
      (p : ℤ) (os : Map Order) (ids : List ℕ) (lv : Levels) (l : Ladder)
      → ids ≢ []
      → is_empty (find_level p (levels rk (with_side rk os ((p, ids) ∷ lv) l))) ≡ false
  unfolding find_level
  is_empty-head p os [] lv l some_id = absurd (some_id refl)
  is_empty-head p os (id ∷ ids) lv l some_id =
      rw (levels-with_side rk os ((p, id ∷ ids) ∷ lv) l) (ground arith)

  -- One round of the outer loop, at a level within the limit.
  module _ (p : ℤ) (ids : List ℕ) (lv : Levels) (os : Map Order) (q : ℕ) (l : Ladder) where
    abbrev w : Walked
    w = walk l.symbol incoming side os ids q

    runs-used :
        (left : ℕ) (after : Map Order) (lv' : Levels) (s : Swept)
        → ltb 0 q ≡ true
        → beyond side limit p ≡ false
        → IsQueue os rk p ids
        → w.queue ≡ []
        → w.result ≡ walked left
        → match_levels rk incoming side limit lv left (with_side rk w.orders lv l)
          ≡ (ok s.quantity, with_side rk after lv' l, s.events)
        → match_levels rk incoming side limit ((p, ids) ∷ lv) q (with_side rk os ((p, ids) ∷ lv) l)
          ≡ (ok s.quantity, with_side rk after lv' l, w.events ++ s.events)
    unfolding match_levels find_level erase_level
    runs-used left after lv' s more near v none_left result rest = ground (
      arith,
      match_orders-walk incoming side rk p os ids q lv l v,
      levels-with_side rk w.orders ((p, []) ∷ lv) l,
      orders-with_side rk w.orders ((p, []) ∷ lv) l,
      with_side-with_side rk w.orders w.orders lv ((p, []) ∷ lv) l,
    )

    runs-left :
        ltb 0 q ≡ true
        → beyond side limit p ≡ false
        → IsQueue os rk p ids
        → w.queue ≢ []
        → (w.result ≡ walked 0) ⊎ (w.result ≡ returned)
        → match_levels rk incoming side limit ((p, ids) ∷ lv) q (with_side rk os ((p, ids) ∷ lv) l)
          ≡ (ok 0, with_side rk w.orders ((p, w.queue) ∷ lv) l, w.events)
    unfolding match_levels find_level
    runs-left more near v some_left (inl spent) = ground (
      arith,
      match_orders-walk incoming side rk p os ids q lv l v,
      is_empty-head p w.orders w.queue lv l some_left,
      append-nil w.events,
    )
    runs-left more near v some_left (inr stopped) =
        ground (arith, match_orders-walk incoming side rk p os ids q lv l v, append-nil w.events)

    across-walk : IsQueue os rk p ids → Keeps (off_side rk) os w.orders
    across-walk v j o e off =
        walk-Keeps l.symbol incoming side rk p os ids q v j o e (off_level-off_side rk p o off)

    back-walk : IsQueue os rk p ids → Keeps (off_side rk) w.orders os
    back-walk v j o e off =
        walk-back l.symbol incoming side rk p os ids q v j o e (off_level-off_side rk p o off)

    fresh-walk : IsQueue os rk p ids → (j : ℕ) → lookup j os ≡ none → lookup j w.orders ≡ none
    fresh-walk v j e = elim (Bool-cases (has j ids)) [
      | inl here ↦ let (o, e', at) = Resting-of_has os rk p j ids v here in cc
      | inr there ↦ walk-kept l.symbol incoming side rk p os ids q j there ∙ e
    ]

    IsListed-used :
        IsQueue os rk p ids
        → w.queue ≡ []
        → IsListed os rk ((p, ids) ∷ lv)
        → IsListed w.orders rk lv
    unfolding find_level
    IsListed-used v none_left h j o e s = elim (Bool-cases (has j ids)) [
      | inl here ↦ ground (arith, walk-listed l.symbol incoming side rk p os ids q v j o here e)
      | inr there ↦
          let old = sym (walk-kept l.symbol incoming side rk p os ids q j there) ∙ e in
          ground (arith, h j o old s)
    ]

    IsListed-left :
        IsQueue os rk p ids
        → IsListed os rk ((p, ids) ∷ lv)
        → IsListed w.orders rk ((p, w.queue) ∷ lv)
    unfolding find_level
    IsListed-left v h j o e s = elim (Bool-cases (has j ids)) [
      | inl here ↦
          let stays = walk-listed l.symbol incoming side rk p os ids q v j o here e in
          let (o', e', at) =
            Resting-of_has w.orders rk p j w.queue
              (walk-IsQueue l.symbol incoming side rk p os ids q v) stays in
          ground (arith, at.priced)
      | inr there ↦
          let old = sym (walk-kept l.symbol incoming side rk p os ids q j there) ∙ e in
          ground (arith, h j o old s)
    ]

    match_level-used :
        (left : ℕ)
        → ltb 0 q ≡ true
        → beyond side limit p ≡ false
        → IsLevels os rk ((p, ids) ∷ lv)
        → w.queue ≡ []
        → w.result ≡ walked left
        → Matches lv w.orders left l (sweep l.symbol incoming side limit (resting w.orders lv) left)
        → Matches ((p, ids) ∷ lv) os q l (resume l.symbol incoming side limit w (resting os lv))
    match_level-used left more near v none_left result m =
        rw
          (
            resume-used l.symbol incoming side limit w (resting os lv) left none_left result,
            ← resting-behind os w.orders rk p (walk-Keeps l.symbol incoming side rk p os ids q v.1)
                lv v.2 v.3,
          )
          (record {
            after = m.after;
            left = m.left;
            runs =
                runs-used left m.after m.left
                  (sweep l.symbol incoming side limit (resting w.orders lv) left) more near v.1
                  none_left result m.runs;
            refines = m.refines;
            valid = m.valid;
            listed = λ h. m.listed (IsListed-used v.1 none_left h);
            across = λ j o e off. m.across j o (across-walk v.1 j o e off) off;
            back = λ j o e off. back-walk v.1 j o (m.back j o e off) off;
            fresh = λ j e. m.fresh j (fresh-walk v.1 j e);
          })

    match_level-left :
        ltb 0 q ≡ true
        → beyond side limit p ≡ false
        → IsLevels os rk ((p, ids) ∷ lv)
        → w.queue ≢ []
        → (w.result ≡ walked 0) ⊎ (w.result ≡ returned)
        → Matches ((p, ids) ∷ lv) os q l (resume l.symbol incoming side limit w (resting os lv))
    match_level-left more near v some_left result =
        rw
          (
            resume-left l.symbol incoming side limit w (resting os lv) some_left,
            ← resting-behind os w.orders rk p (walk-Keeps l.symbol incoming side rk p os ids q v.1)
                lv v.2 v.3,
          )
          (record {
            after = w.orders;
            left = (p, w.queue) ∷ lv;
            runs = runs-left more near v.1 some_left result;
            refines = refl;
            valid = (
              some_left,
              walk-IsQueue l.symbol incoming side rk p os ids q v.1,
              v.2,
              IsLevels-behind os w.orders rk p (walk-Keeps l.symbol incoming side rk p os ids q v.1)
                  lv v.2 v.3,
            );
            listed = IsListed-left v.1;
            across = across-walk v.1;
            back = back-walk v.1;
            fresh = fresh-walk v.1;
          })

  -- On the well-formed levels of one side, `match` ends without an exception, with the calls, the
  -- remaining quantity and the resting orders of the specified sweep; the levels stay well
  -- formed, the orders of the other side stay as they are, and no id comes in.
  pub match_levels-sweep :
      (lv : Levels) (os : Map Order) (q : ℕ) (l : Ladder)
      → IsLevels os rk lv
      → Matches lv os q l (sweep l.symbol incoming side limit (resting os lv) q)
  unfolding match_levels
  match_levels-sweep [] os q l v = match_levels-stop [] os q l v refl (sweep-nil _ _ _ _ q)
  match_levels-sweep ((p, ids) ∷ lv) os q l v = elim (Bool-cases (ltb 0 q)) [
    | inr spent ↦
        match_levels-stop ((p, ids) ∷ lv) os q l v (ground arith) (sweep-spent _ _ _ _ _ q spent)
    | inl more ↦ elim (Bool-cases (beyond side limit p)) [
      | inl far ↦
          match_levels-stop ((p, ids) ∷ lv) os q l v (ground arith)
            (sweep-beyond _ _ _ _ rk p os ids q (resting os lv) far v.0 v.1)
      | inr near ↦
          rw (sweep-walk l.symbol incoming side limit rk p os ids q (resting os lv) near v.1)
            (elim (walk_ends l.symbol incoming side rk p os ids q v.1) [
              | inl (none_left, (left, result)) ↦
                  match_level-used p ids lv os q l left more near v none_left result (
                    match_levels-sweep lv (walk l.symbol incoming side os ids q).orders left l (
                      IsLevels-behind os _ rk p
                        (walk-Keeps l.symbol incoming side rk p os ids q v.1) lv v.2 v.3))
              | inr (some_left, result) ↦
                  match_level-left p ids lv os q l more near v some_left result
            ])
    ]
  ]
