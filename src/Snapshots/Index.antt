-- ===== src/Snapshots/Index.antt =====
-- The index of the open orders of `SnapshotWriter` (market_data/snapshot_writer.cpp).
use ndfex.Prelude.{
  ℕ, ◌≡◌, refl, sym, ap, ◌∙◌, ◌⊎◌, inl, inr, Bool, true, false, ◌||◌, List, [], ◌∷◌, ◌++◌, none,
  some, arith, ◌==◌, if◌then◌else◌, Bool-cases,
}
use ndfex.Prelude.Map.{Map, lookup, insert, erase, lookup-insert, lookup-erase}
use ndfex.Snapshots.{
  OpenOrder, Writer, orders_at, find_order, remove_all, remove_first, replace_first, with_bids,
  with_asks,
}

-- An order with the id is in the list.
unfoldable pub has : ℕ → List OpenOrder → Bool
has id [] = false
has id (o ∷ os) = if o.order_id == id then true else has id os

has-snoc :
    (id : ℕ) (o : OpenOrder) (os : List OpenOrder)
    → has id (os ++ (o ∷ [])) ≡ (if o.order_id == id then true else has id os)
unfolding has
has-snoc id o [] = refl
has-snoc id o (x ∷ os) = ground (arith, has-snoc id o os)

pub has-remove_all :
    (id other : ℕ) (os : List OpenOrder)
    → has other (remove_all id os) ≡ (if id == other then false else has other os)
unfolding has remove_all
has-remove_all id other [] = ground arith
has-remove_all id other (x ∷ os) = ground (arith, has-remove_all id other os)

has-remove_first :
    (id other : ℕ) (os : List OpenOrder)
    → has other (remove_first id os) ≡ true
    → has other os ≡ true
unfolding has remove_first
has-remove_first id other [] h = h
has-remove_first id other (x ∷ os) h = ground (arith, h, has-remove_first id other os)

has-replace_first :
    (new : OpenOrder) (other : ℕ) (os : List OpenOrder)
    → has other (replace_first new os) ≡ has other os
unfolding has replace_first
has-replace_first new other [] = refl
has-replace_first new other (x ∷ os) = ground (arith, has-replace_first new other os)

pub has-find_order :
    (id : ℕ) (os : List OpenOrder) (o : OpenOrder)
    → find_order id os ≡ some o
    → (has id os ≡ true) × (o.order_id ≡ id)
unfolding has find_order
has-find_order id [] o e = absurd cc
has-find_order id (x ∷ os) o e = elim (Bool-cases (x.order_id == id)) [
  | inl same ↦
      let x_is : x ≡ o = ground (arith, e, same) in
      (ground (arith, same), ap (λ k. k.order_id) (sym x_is) ∙ (ground (arith, same)))
  | inr other ↦ ground (arith, e, other, has-find_order id os o)
]

abbrev pub holds : ℕ → ℕ → Writer → Bool
holds symbol id w =
    has id (orders_at symbol w.symbol_to_bids) || has id (orders_at symbol w.symbol_to_asks)

-- `order_to_symbol` gives the symbol of each order that is kept.
abbrev pub IsIndexed : Writer → Type 0
IsIndexed w = (symbol id : ℕ) → holds symbol id w ≡ true → lookup id w.order_to_symbol ≡ some symbol

pub orders_at-insert :
    (symbol other : ℕ) (os : List OpenOrder) (m : Map (List OpenOrder))
    → orders_at other (insert symbol os m) ≡ (if symbol == other then os else orders_at other m)
orders_at-insert symbol other os m = ground (arith, lookup-insert symbol other os m)

-- The list gets no order but one that is known in the symbol.
abbrev pub Narrows : ℕ → List OpenOrder → List OpenOrder → Type 0
Narrows id os os' = (i : ℕ) → has i os' ≡ true → (has i os ≡ true) ⊎ (i ≡ id)

module _ (id symbol : ℕ) (os : List OpenOrder) (w : Writer)
    (known : lookup id w.order_to_symbol ≡ some symbol) (indexed : IsIndexed w) where
  known_there :
      (other i : ℕ) → (symbol == other) ≡ true → i ≡ id → lookup i w.order_to_symbol ≡ some other
  known_there other i same e = ground (arith, known, same, e)

  pub with_bids-IsIndexed :
      Narrows id (orders_at symbol w.symbol_to_bids) os → IsIndexed (with_bids symbol os w)
  with_bids-IsIndexed narrows other i h = elim (Bool-cases (symbol == other)) [
    | inr apart ↦
        indexed other i
          (ground (arith, h, apart, orders_at-insert symbol other os w.symbol_to_bids))
    | inl same ↦ elim (Bool-cases (has i os)) [
      | inr absent ↦
          indexed other i
            (ground (arith, h, same, absent, orders_at-insert symbol other os w.symbol_to_bids))
      | inl present ↦ elim (narrows i present) [
        | inr e ↦ known_there other i same e
        | inl before ↦
            let symbol_is : symbol ≡ other = ground (arith, same) in
            indexed other i (
              ap
                (λ k.
                  has i (orders_at k w.symbol_to_bids) || has i (orders_at other w.symbol_to_asks))
                (sym symbol_is)
              ∙ (ground (arith, before)))
      ]
    ]
  ]

  pub with_asks-IsIndexed :
      Narrows id (orders_at symbol w.symbol_to_asks) os → IsIndexed (with_asks symbol os w)
  with_asks-IsIndexed narrows other i h = elim (Bool-cases (symbol == other)) [
    | inr apart ↦
        indexed other i
          (ground (arith, h, apart, orders_at-insert symbol other os w.symbol_to_asks))
    | inl same ↦ elim (Bool-cases (has i os)) [
      | inr absent ↦
          indexed other i
            (ground (arith, h, same, absent, orders_at-insert symbol other os w.symbol_to_asks))
      | inl present ↦ elim (narrows i present) [
        | inr e ↦ known_there other i same e
        | inl before ↦
            let symbol_is : symbol ≡ other = ground (arith, same) in
            indexed other i (
              ap
                (λ k.
                  has i (orders_at other w.symbol_to_bids) || has i (orders_at k w.symbol_to_asks))
                (sym symbol_is)
              ∙ (ground (arith, before)))
      ]
    ]
  ]

pub Narrows-replace_first :
    (id : ℕ) (new : OpenOrder) (os : List OpenOrder) → Narrows id os (replace_first new os)
Narrows-replace_first id new os i h = inl (sym (has-replace_first new i os) ∙ h)

pub Narrows-remove_first : (id : ℕ) (os : List OpenOrder) → Narrows id os (remove_first id os)
Narrows-remove_first id os i h = inl (has-remove_first id i os h)

pub Narrows-snoc : (o : OpenOrder) (os : List OpenOrder) → Narrows o.order_id os (os ++ (o ∷ []))
Narrows-snoc o os i h = elim (Bool-cases (o.order_id == i)) [
  | inl same ↦ inr (ground (arith, same))
  | inr other ↦ inl (ground (arith, h, other, has-snoc i o os))
]

pub added-IsIndexed :
    (id symbol : ℕ) (w : Writer)
    → lookup id w.order_to_symbol ≡ none
    → IsIndexed w
    → IsIndexed (record w { order_to_symbol = insert id symbol w.order_to_symbol })
added-IsIndexed id symbol w fresh indexed other i h =
    ground (arith, fresh, indexed other i h, lookup-insert id i symbol w.order_to_symbol)

pub erased-IsIndexed :
    (id symbol : ℕ) (w : Writer)
    → lookup id w.order_to_symbol ≡ some symbol
    → IsIndexed w
    → holds symbol id w ≡ false
    → IsIndexed (record w { order_to_symbol = erase id w.order_to_symbol })
erased-IsIndexed id symbol w known indexed gone other i h = elim (Bool-cases (id == i)) [
  | inr apart ↦ lookup-erase id i w.order_to_symbol ∙ (rw apart (indexed other i h))
  | inl same ↦
      let i_is : id ≡ i = ground (arith, same) in
      let there : some symbol ≡ some other =
        sym known ∙ ap (λ k. lookup k w.order_to_symbol) i_is ∙ indexed other i h in
      let symbol_is : symbol ≡ other = cc in
      absurd
        (ground (arith, gone, ap (λ k. holds k i w) symbol_is ∙ h, ap (λ k. holds symbol k w) i_is))
]
