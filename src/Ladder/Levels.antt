-- ===== src/Ladder/Levels.antt =====
-- The `std::map<int32_t, PriceLevel, Compare>` of one side of the book (matching_engine/
-- order_ladder.H), sorted by price with the best price first.
use ndfex.Prelude.{ℕ, Bool, true, false, List, [], ◌∷◌, Option, none, some, ◌==◌, if◌then◌else◌}
use ndfex.Prelude.Int.{ℤ, eqb_ℤ}
use ndfex.Ladder.State.{Ranking, ahead, Levels}

-- `levels.find(p)`
unfoldable pub find_level : ℤ → Levels → Option (List ℕ)
find_level p [] = none
find_level p ((p', ids) ∷ lv) = if eqb_ℤ p' p then some ids else find_level p lv

-- The write through a reference to an existing level, `levels[p] = ids`.
unfoldable pub set_level : ℤ → List ℕ → Levels → Levels
set_level p ids [] = []
set_level p ids ((p', ids') ∷ lv) =
    if eqb_ℤ p' p then (p', ids) ∷ lv else (p', ids') ∷ set_level p ids lv

-- `levels.insert({p, ids})` of a price that is not there.
unfoldable pub insert_level : Ranking → ℤ → List ℕ → Levels → Levels
insert_level rk p ids [] = (p, ids) ∷ []
insert_level rk p ids ((p', ids') ∷ lv) =
    if ahead rk p p' then (p, ids) ∷ (p', ids') ∷ lv else (p', ids') ∷ insert_level rk p ids lv

-- `levels.erase(p)`
unfoldable pub erase_level : ℤ → Levels → Levels
erase_level p [] = []
erase_level p ((p', ids) ∷ lv) = if eqb_ℤ p' p then lv else (p', ids) ∷ erase_level p lv

-- Taking one node out of the linked list of a level.
unfoldable pub unlink : ℕ → List ℕ → List ℕ
unlink id [] = []
unlink id (j ∷ ids) = if j == id then ids else j ∷ unlink id ids

-- `head == nullptr`, of the level at `p`.
abbrev pub is_empty : Option (List ℕ) → Bool
is_empty none = false
is_empty (some []) = true
is_empty (some (id ∷ ids)) = false
