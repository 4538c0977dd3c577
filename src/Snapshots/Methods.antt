-- ===== src/Snapshots/Methods.antt =====
-- The payloads of `SnapshotWriter::process` (market_data/snapshot_writer.cpp) against the index of orders.
use mathlib.Core.Path.{subst}
use ndfex.Prelude.{
  ℕ, ◌-◌, ◌≡◌, inl, inr, true, List, [], ◌∷◌, ◌++◌, none, some, arith, ltb, ◌==◌, Bool-cases,
  Option-cases,
}
use ndfex.Prelude.Map.{lookup, insert, lookup-insert_self}
use ndfex.Protocol.{is_buy, is_sell}
use ndfex.Snapshots.{
  MdPayload, OpenOrder, Writer, orders_at, find_order, remove_all, remove_first, replace_first,
  order_of, with_bids, with_asks, add_order, delete_order, changed, modify_order, reduce, trade,
  at_order, apply, apply_all,
}
use ndfex.Snapshots.Index.{
  IsIndexed, Narrows, Narrows-replace_first, Narrows-remove_first, Narrows-snoc, added-IsIndexed,
  erased-IsIndexed, orders_at-insert, has-remove_all, with_bids-IsIndexed, with_asks-IsIndexed,
}

add_order-IsIndexed :
    (p : MdPayload) (w : Writer)
    → lookup p.order_id w.order_to_symbol ≡ none
    → IsIndexed w
    → IsIndexed (add_order p w)
unfolding add_order
add_order-IsIndexed p w fresh indexed =
    let o = order_of p.symbol p in
    let w' : Writer = record w { order_to_symbol = insert p.order_id p.symbol w.order_to_symbol } in
    let known = lookup-insert_self p.order_id p.symbol w.order_to_symbol in
    let indexed' = added-IsIndexed p.order_id p.symbol w fresh indexed in
    elim (Bool-cases (is_buy p.side)) [
      | inl buying ↦ rw buying (
          with_bids-IsIndexed p.order_id p.symbol _ w' known indexed'
            (Narrows-snoc o (orders_at p.symbol w.symbol_to_bids)))
      | inr selling ↦ rw selling (
          with_asks-IsIndexed p.order_id p.symbol _ w' known indexed'
            (Narrows-snoc o (orders_at p.symbol w.symbol_to_asks)))
    ]

Narrows-remove_all : (id : ℕ) (os : List OpenOrder) → Narrows id os (remove_all id os)
Narrows-remove_all id os i h = inl (ground (arith, h, has-remove_all id i os))

module _ (symbol : ℕ) (w : Writer) (indexed : IsIndexed w) where
  abbrev bids : List OpenOrder
  bids = orders_at symbol w.symbol_to_bids

  abbrev asks : List OpenOrder
  asks = orders_at symbol w.symbol_to_asks

  delete_order-IsIndexed :
      (id : ℕ) → lookup id w.order_to_symbol ≡ some symbol → IsIndexed (delete_order id symbol w)
  unfolding delete_order
  delete_order-IsIndexed id known =
      let w' = with_bids symbol (remove_all id bids) w in
      let indexed' =
        with_bids-IsIndexed id symbol (remove_all id bids) w known indexed
          (Narrows-remove_all id bids) in
      let w'' = with_asks symbol (remove_all id asks) w' in
      let indexed'' =
        with_asks-IsIndexed id symbol (remove_all id asks) w' known indexed'
          (Narrows-remove_all id asks) in
      erased-IsIndexed id symbol w'' known indexed'' (
        ground (
          arith,
          orders_at-insert symbol symbol (remove_all id bids) w.symbol_to_bids,
          orders_at-insert symbol symbol (remove_all id asks) w.symbol_to_asks,
          has-remove_all id id bids,
          has-remove_all id id asks,
        ))

  module _ (p : MdPayload) (known : lookup p.order_id w.order_to_symbol ≡ some symbol) where
    abbrev id : ℕ
    id = p.order_id

    modify_order-IsIndexed : IsIndexed (modify_order p symbol w)
    unfolding modify_order
    modify_order-IsIndexed = elim (Option-cases (find_order id bids)) [
      | inr (o, found) ↦ elim (Bool-cases (is_buy p.side)) [
        | inl stays ↦
            rw (found, modify_order, stays)
              (with_bids-IsIndexed id symbol (replace_first (changed p o) bids) w known indexed
                (Narrows-replace_first id (changed p o) bids))
        | inr moves ↦
            rw (found, modify_order, moves)
              (with_asks-IsIndexed id symbol (asks ++ (order_of symbol p ∷ []))
                (with_bids symbol (remove_first id bids) w) known
                (with_bids-IsIndexed id symbol (remove_first id bids) w known indexed
                  (Narrows-remove_first id bids))
                (Narrows-snoc (order_of symbol p) asks))
      ]
      | inl absent ↦ elim (Option-cases (find_order id asks)) [
        | inl nowhere ↦ rw (absent, nowhere, modify_order) indexed
        | inr (o, found) ↦ elim (Bool-cases (is_sell p.side)) [
          | inl stays ↦
              rw (absent, found, modify_order, stays)
                (with_asks-IsIndexed id symbol (replace_first (changed p o) asks) w known indexed
                  (Narrows-replace_first id (changed p o) asks))
          | inr moves ↦
              rw (absent, found, modify_order, moves)
                (with_bids-IsIndexed id symbol (bids ++ (order_of symbol p ∷ []))
                  (with_asks symbol (remove_first id asks) w) known
                  (with_asks-IsIndexed id symbol (remove_first id asks) w known indexed
                    (Narrows-remove_first id asks))
                  (Narrows-snoc (order_of symbol p) bids))
        ]
      ]
    ]

    Narrows-reduce :
        (o : OpenOrder) (os os' : List OpenOrder) → reduce p o os ≡ some os' → Narrows id os os'
    unfolding reduce
    Narrows-reduce o os os' e = elim (Bool-cases (ltb o.quantity p.quantity)) [
      | inl short ↦ absurd (ground (arith, e, short))
      | inr enough ↦ elim (Bool-cases (o.quantity - p.quantity == 0)) [
        | inl used_up ↦
            let is : remove_first id os ≡ os' = ground (arith, e, enough, used_up) in
            subst (Narrows id os) is (Narrows-remove_first id os)
        | inr left ↦
            let rest : OpenOrder = record o { quantity = o.quantity - p.quantity } in
            let is : replace_first rest os ≡ os' = ground (arith, e, enough, left) in
            subst (Narrows id os) is (Narrows-replace_first id rest os)
      ]
    ]

    trade-IsIndexed : IsIndexed (trade p symbol w)
    unfolding trade
    trade-IsIndexed = elim (Option-cases (find_order id bids)) [
      | inr (o, found) ↦ elim (Option-cases (reduce p o bids)) [
        | inl short ↦ rw (found, trade, short) indexed
        | inr (os, left) ↦
            rw (found, trade, left)
              (with_bids-IsIndexed id symbol os w known indexed (Narrows-reduce o bids os left))
      ]
      | inl absent ↦ elim (Option-cases (find_order id asks)) [
        | inl nowhere ↦ rw (absent, nowhere, trade) indexed
        | inr (o, found) ↦ elim (Option-cases (reduce p o asks)) [
          | inl short ↦ rw (absent, found, trade, short) indexed
          | inr (os, left) ↦
              rw (absent, found, trade, left)
                (with_asks-IsIndexed id symbol os w known indexed (Narrows-reduce o asks os left))
        ]
      ]
    ]

at_order-IsIndexed :
    (id : ℕ) (f : ℕ → Writer → Writer) (w : Writer)
    → IsIndexed w
    → ((symbol : ℕ) → lookup id w.order_to_symbol ≡ some symbol → IsIndexed (f symbol w))
    → IsIndexed (at_order id f w)
at_order-IsIndexed id f w indexed each = elim (Option-cases (lookup id w.order_to_symbol)) [
  | inl unknown ↦ rw (unknown, at_order) indexed
  | inr (symbol, known) ↦ rw (known, at_order) (each symbol known)
]

apply-IsIndexed :
    (p : MdPayload) (w : Writer)
    → ((p.msg_type == 1) ≡ true → lookup p.order_id w.order_to_symbol ≡ none)
    → IsIndexed w
    → IsIndexed (apply p w)
unfolding apply
apply-IsIndexed p w fresh indexed = elim (Bool-cases (p.msg_type == 1)) [
  | inl new ↦ elim (Option-cases (lookup p.symbol w.symbol_to_bids)) [
    | inl unknown ↦ rw (new, unknown) indexed
    | inr (os, known) ↦ rw (new, known) (add_order-IsIndexed p w (fresh new) indexed)
  ]
  | inr other ↦ elim (Bool-cases (p.msg_type == 2)) [
    | inl deletes ↦
        rw (other, deletes)
          (at_order-IsIndexed p.order_id (delete_order p.order_id) w indexed
            (λ symbol known. delete_order-IsIndexed symbol w indexed p.order_id known))
    | inr other' ↦ elim (Bool-cases (p.msg_type == 3)) [
      | inl modifies ↦
          rw (other, other', modifies)
            (at_order-IsIndexed p.order_id (modify_order p) w indexed
              (λ symbol known. modify_order-IsIndexed symbol w indexed p known))
      | inr other'' ↦ elim (Bool-cases (p.msg_type == 4)) [
        | inl trades ↦
            rw (other, other', other'', trades)
              (at_order-IsIndexed p.order_id (trade p) w indexed
                (λ symbol known. trade-IsIndexed symbol w indexed p known))
        | inr rest ↦ rw (other, other', other'', rest) indexed
      ]
    ]
  ]
]

abbrev pub seen : MdPayload → Writer → Writer
seen p w = record w { last_md_seq_num = p.seq_num }

-- The id of each new order is not known when it comes.
abbrev pub AllFresh : List MdPayload → Writer → Type 0
AllFresh [] w = Unit {0}
AllFresh (p ∷ ps) w =
    ((p.msg_type == 1) ≡ true → lookup p.order_id w.order_to_symbol ≡ none)
    × AllFresh ps (apply p (seen p w))

-- If `order_to_symbol` of the snapshot writer gives the symbol of each order in its lists of bids
-- and asks, and the id of each new order is not known when it comes: it gives the symbols after
-- any payloads.
pub apply_all-IsIndexed :
    (ps : List MdPayload) (w : Writer) → AllFresh ps w → IsIndexed w → IsIndexed (apply_all ps w)
unfolding apply_all
apply_all-IsIndexed [] w fresh indexed = indexed
apply_all-IsIndexed (p ∷ ps) w (fresh, all) indexed =
    apply_all-IsIndexed ps (apply p (seen p w)) all (apply-IsIndexed p (seen p w) fresh indexed)
