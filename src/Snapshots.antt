-- ===== src/Snapshots.antt =====
-- `SnapshotWriter::process` (market_data/snapshot_writer.cpp): the open orders that the live feed names, kept
-- for snapshots.
pub mod Index
pub mod Methods
pub mod Writing
mod Tests
use ndfex.Prelude.{
  ℕ, ◌+◌, ◌-◌, Bool, true, false, List, [], ◌∷◌, ◌++◌, Option, none, some, ltb, ◌==◌, if◌then◌else◌,
}
use ndfex.Prelude.Int.{ℤ}
use ndfex.Prelude.Map.{Map, lookup, insert, erase}
use ndfex.Protocol.{Side, is_buy, is_sell}

-- `md_payload` (market_data/spsc_md_queue.H)
pub record MdPayload : Type 0 where
  pub msg_type : ℕ
  pub seq_num : ℕ
  pub order_id : ℕ
  pub symbol : ℕ
  pub side : Side
  pub quantity : ℕ
  pub price : ℤ
  pub flags : ℕ

-- A `new_order` that waits for a snapshot, without its header.
pub record OpenOrder : Type 0 where
  pub order_id : ℕ
  pub symbol : ℕ
  pub side : Side
  pub quantity : ℕ
  pub price : ℤ
  pub flags : ℕ

pub record Writer : Type 0 where
  pub last_md_seq_num : ℕ
  pub symbol_to_bids : Map (List OpenOrder)
  pub symbol_to_asks : Map (List OpenOrder)
  pub order_to_symbol : Map ℕ

abbrev pub orders_at : ℕ → Map (List OpenOrder) → List OpenOrder
orders_at symbol m = elim (lookup symbol m) [ none ↦ [] | some os ↦ os ]

-- `std::find_if` by the order id
unfoldable pub find_order : ℕ → List OpenOrder → Option OpenOrder
find_order id [] = none
find_order id (o ∷ os) = if o.order_id == id then some o else find_order id os

-- `std::remove_if` by the order id, and `erase`
unfoldable pub remove_all : ℕ → List OpenOrder → List OpenOrder
remove_all id [] = []
remove_all id (o ∷ os) = let rest = remove_all id os in if o.order_id == id then rest else o ∷ rest

-- `erase(it)`, at what `find_if` found
unfoldable pub remove_first : ℕ → List OpenOrder → List OpenOrder
remove_first id [] = []
remove_first id (o ∷ os) =
    let rest = remove_first id os in if o.order_id == id then os else o ∷ rest

-- `it->quantity = quantity` and so on, at what `find_if` found
unfoldable pub replace_first : OpenOrder → List OpenOrder → List OpenOrder
replace_first new [] = []
replace_first new (o ∷ os) =
    let rest = replace_first new os in if o.order_id == new.order_id then new ∷ os else o ∷ rest

abbrev pub order_of : ℕ → MdPayload → OpenOrder
order_of symbol p = record {
  order_id = p.order_id;
  symbol = symbol;
  side = p.side;
  quantity = p.quantity;
  price = p.price;
  flags = p.flags;
}

abbrev pub with_bids : ℕ → List OpenOrder → Writer → Writer
with_bids symbol os w = record w { symbol_to_bids = insert symbol os w.symbol_to_bids }

abbrev pub with_asks : ℕ → List OpenOrder → Writer → Writer
with_asks symbol os w = record w { symbol_to_asks = insert symbol os w.symbol_to_asks }

-- `NEW_ORDER`, in a symbol that is there
unfoldable pub add_order : MdPayload → Writer → Writer
add_order p w =
    let w' =
      if is_buy p.side
      then with_bids p.symbol (orders_at p.symbol w.symbol_to_bids ++ (order_of p.symbol p ∷ [])) w
      else with_asks p.symbol (orders_at p.symbol w.symbol_to_asks ++ (order_of p.symbol p ∷ []))
          w in
    record w' { order_to_symbol = insert p.order_id p.symbol w'.order_to_symbol }

-- `DELETE_ORDER`, at an order of `symbol`
unfoldable pub delete_order : ℕ → ℕ → Writer → Writer
delete_order id symbol w =
    let w' = with_bids symbol (remove_all id (orders_at symbol w.symbol_to_bids)) w in
    let w'' = with_asks symbol (remove_all id (orders_at symbol w'.symbol_to_asks)) w' in
    record w'' { order_to_symbol = erase id w''.order_to_symbol }

-- The order stays in place with other values, if its side stays.
abbrev pub changed : MdPayload → OpenOrder → OpenOrder
changed p o = record o { quantity = p.quantity; price = p.price; flags = p.flags }

-- `MODIFY_ORDER`, at an order of `symbol`
unfoldable pub modify_order : MdPayload → ℕ → Writer → Writer
modify_order p symbol w =
    let bids = orders_at symbol w.symbol_to_bids in
    let asks = orders_at symbol w.symbol_to_asks in
    elim (find_order p.order_id bids) [
      | some o ↦
          if is_buy p.side
          then with_bids symbol (replace_first (changed p o) bids) w
          else with_asks symbol (asks ++ (order_of symbol p ∷ []))
              (with_bids symbol (remove_first p.order_id bids) w)
      | none ↦ elim (find_order p.order_id asks) [
        | none ↦ w
        | some o ↦
            if is_sell p.side
            then with_asks symbol (replace_first (changed p o) asks) w
            else with_bids symbol (bids ++ (order_of symbol p ∷ []))
                (with_asks symbol (remove_first p.order_id asks) w)
      ]
    ]

-- An order of a list trades; `none` where it trades more than it has.
unfoldable pub reduce : MdPayload → OpenOrder → List OpenOrder → Option (List OpenOrder)
reduce p o os =
    if ltb o.quantity p.quantity
    then none
    else if o.quantity - p.quantity == 0
    then some (remove_first p.order_id os)
    else some (replace_first (record o { quantity = o.quantity - p.quantity }) os)

-- `TRADE`, at an order of `symbol`
unfoldable pub trade : MdPayload → ℕ → Writer → Writer
unfolding reduce
trade p symbol w = elim (find_order p.order_id (orders_at symbol w.symbol_to_bids)) [
  | some o ↦ elim (reduce p o (orders_at symbol w.symbol_to_bids)) [
    | none ↦ w
    | some os ↦ with_bids symbol os w
  ]
  | none ↦ elim (find_order p.order_id (orders_at symbol w.symbol_to_asks)) [
    | none ↦ w
    | some o ↦ elim (reduce p o (orders_at symbol w.symbol_to_asks)) [
      | none ↦ w
      | some os ↦ with_asks symbol os w
    ]
  ]
]

-- A call for an order that has to be known.
abbrev pub at_order : ℕ → (ℕ → Writer → Writer) → Writer → Writer
at_order id f w = elim (lookup id w.order_to_symbol) [ none ↦ w | some symbol ↦ f symbol w ]

-- The `switch` of `process`.
unfoldable pub apply : MdPayload → Writer → Writer
unfolding add_order delete_order modify_order trade
apply p w =
    if p.msg_type == 1
    then elim (lookup p.symbol w.symbol_to_bids) [ none ↦ w | some os ↦ add_order p w ]
    else if p.msg_type == 2
    then at_order p.order_id (delete_order p.order_id) w
    else if p.msg_type == 3
    then at_order p.order_id (modify_order p) w
    else if p.msg_type == 4
    then at_order p.order_id (trade p) w
    else w

-- The loop of `process`, over what is on the queue.
unfoldable pub apply_all : List MdPayload → Writer → Writer
unfolding apply
apply_all [] w = w
apply_all (p ∷ ps) w = apply_all ps (apply p (record w { last_md_seq_num = p.seq_num }))
