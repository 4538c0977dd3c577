-- ===== src/Bots/MdClient.antt =====
-- `MDClient` (bots/md_client.cpp, bots/md_client.H): rebuilds the order books from the packets of the feed.
--
-- A packet is what `recvfrom` gives. An output is a call of the trade summary listener, which is there.
pub mod Packets
pub mod Replay
pub mod Recovery
mod Tests
use ndfex.Prelude.{
  ℕ, zero, suc, ◌+◌, ◌%◌, ◌^◌, Bool, true, false, List, [], ◌∷◌, ◌++◌, Option, none, some, ltb,
  ◌==◌, if◌then◌else◌, not,
}
use ndfex.Prelude.Int.{ℤ, pos}
use ndfex.Prelude.Map.{Map, lookup, insert}
use ndfex.Prelude.Bytes.{length, drop, size}
use ndfex.Protocol.{Side}
use ndfex.Feed.{
  magic_number, Header, Message, heartbeat, new_order, delete_order, modify_order, trade,
  trade_summary, snapshot_info, header_layout, layout_of, read_header, read_message,
}
use ndfex.Bots.OrderBook
use ndfex.Bots.OrderBook.{PriceLevel, get_best_bid, get_best_ask, order_trade}

-- An order of the snapshot.
pub record SnapshotOrder : Type 0 where
  pub order_id : ℕ
  pub symbol : ℕ
  pub side : Side
  pub quantity : ℕ
  pub price : ℤ

pub record MdClient : Type 0 where
  pub symbol_to_order_book : Map OrderBook.OrderBook
  pub order_to_symbol : Map ℕ
  pub last_md_seq_num : ℕ
  pub live_buffer : List ℕ
  pub snapshot_buffer : Map (List SnapshotOrder)
  pub snapshot_complete : Map Bool
  pub last_snapshot_seq_num : ℕ
  pub recover_on_drops : Bool

-- `on_trade_summary`
pub record Summary : Type 0 where
  pub symbol : ℕ
  pub quantity : ℕ
  pub price : ℤ
  pub aggressor_side : Side

abbrev pub empty_book : OrderBook.OrderBook
empty_book = record { orders = []; buy_levels = []; sell_levels = [] }

-- `symbol_to_order_book[symbol]`, made where there is none.
abbrev pub book_of : ℕ → MdClient → OrderBook.OrderBook
book_of symbol c = elim (lookup symbol c.symbol_to_order_book) [ none ↦ empty_book | some b ↦ b ]

abbrev pub with_book : ℕ → OrderBook.OrderBook → MdClient → MdClient
with_book symbol b c = record c { symbol_to_order_book = insert symbol b c.symbol_to_order_book }

-- A new order of the feed, or of a snapshot.
unfoldable pub add_order : ℕ → ℕ → Side → ℕ → ℤ → MdClient → MdClient
add_order id symbol side quantity price c =
    record (with_book symbol (OrderBook.new_order id side quantity price (book_of symbol c)) c) {
      order_to_symbol = insert id symbol c.order_to_symbol;
    }

-- `order_to_symbol[id]`, which is 0 where there is no entry, and makes one.
abbrev pub symbol_of : ℕ → MdClient → ℕ
symbol_of id c = elim (lookup id c.order_to_symbol) [ none ↦ 0 | some symbol ↦ symbol ]

abbrev pub touch : ℕ → MdClient → MdClient
touch id c = record c { order_to_symbol = insert id (symbol_of id c) c.order_to_symbol }

-- What the `switch` of `process_message` comes to: `return`, or `break`.
pub data Turn : Type 0 where
  stops : MdClient → Turn
  passes : MdClient → List Summary → Turn

-- A call of a book that has to be there.
abbrev pub at_book : ℕ → (OrderBook.OrderBook → OrderBook.OrderBook) → MdClient → Turn
at_book symbol f c = elim (lookup symbol c.symbol_to_order_book) [
  | none ↦ stops c
  | some b ↦ passes (with_book symbol (f b) c) []
]

-- The `switch` of `process_message`.
unfoldable pub on_message : Message → MdClient → Turn
unfolding add_order
on_message heartbeat c = passes c []
on_message (new_order id symbol side quantity price flags) c =
    passes (add_order id symbol side quantity price c) []
on_message (delete_order id) c = at_book (symbol_of id c) (OrderBook.delete_order id) (touch id c)
on_message (modify_order id side quantity price) c =
    at_book (symbol_of id c) (OrderBook.modify_order id side quantity price) (touch id c)
on_message (trade id quantity price) c = elim (lookup id c.order_to_symbol) [
  | none ↦ stops c
  | some symbol ↦ at_book symbol (order_trade id quantity) c
]
on_message (trade_summary symbol side quantity price) c =
    elim (lookup symbol c.symbol_to_order_book) [
      | none ↦ stops c
      | some b ↦ passes c (
          record { symbol = symbol; quantity = quantity; price = price; aggressor_side = side }
          ∷ [])
    ]
on_message (snapshot_info symbol bids asks last_seq) c = stops c

-- `sizeof` of the struct of a type; the types that the client does not know have the size of the header.
abbrev pub struct_size : ℕ → ℕ
struct_size t = elim (layout_of t) [ none ↦ 23 | some ws ↦ size header_layout + size ws ]

abbrev pub on_struct : Option Message → MdClient → Turn
on_struct none c = stops c
on_struct (some m) c = on_message m c

-- How `process_message` ends: it returns, or it has cleared the books and calls `wait_for_snapshot`, or a
-- length that the packet does not have takes it behind the end of the packet.
pub data Ending : Type 0 where
  returned : MdClient → List Summary → Ending
  recovers : MdClient → List Summary → Ending
  overran : MdClient → List Summary → Ending

-- The state in which `process_message` calls `wait_for_snapshot`.
abbrev pub cleared : MdClient → MdClient
cleared c = record c {
  symbol_to_order_book = [];
  order_to_symbol = [];
  live_buffer = [];
  snapshot_buffer = [];
  snapshot_complete = [];
  last_snapshot_seq_num = 0;
}

-- One message at the front of a packet.
pub data Round : Type 0 where
  ends : Ending → Round
  next : ℕ → MdClient → List Summary → Round

abbrev pub turn_round : ℕ → Turn → Round
turn_round n (stops c) = ends (returned c [])
turn_round n (passes c outs) = next n c outs

-- A message that is due.
unfoldable pub process_next : Header → List ℕ → MdClient → Round
unfolding on_message
process_next h buf c =
    if ltb (length buf) (struct_size h.msg_type)
    then ends (returned c [])
    else turn_round h.length (on_struct (read_message h.msg_type buf) c)

unfoldable pub process_front : List ℕ → MdClient → Round
unfolding process_next
process_front buf c =
    let h = read_header buf in
    if ltb (length buf) (size header_layout)
    then ends (returned c [])
    else if not (h.magic == magic_number)
    then ends (returned c [])
    else if ltb ((c.last_md_seq_num + 1) % 2 ^ 32) h.seq_num
    then ends (if c.recover_on_drops then recovers (cleared c) [] else returned c [])
    else if ltb c.last_md_seq_num h.seq_num
    then process_next h buf (record c { last_md_seq_num = h.seq_num })
    else next h.length c []

-- Earlier calls of the listener come first.
abbrev pub prepend : List Summary → Option Ending → Option Ending
prepend outs none = none
prepend outs (some (returned c outs')) = some (returned c (outs ++ outs'))
prepend outs (some (recovers c outs')) = some (recovers c (outs ++ outs'))
prepend outs (some (overran c outs')) = some (overran c (outs ++ outs'))

-- `process_message`, with fuel for its loop; none where it runs out.
unfoldable pub process_message : ℕ → List ℕ → MdClient → Option Ending
unfolding process_front
process_message zero buf c = none
process_message (suc fuel) [] c = some (returned c [])
process_message (suc fuel) (x ∷ xs) c = elim (process_front (x ∷ xs) c) [
  | ends e ↦ some e
  | next n c' outs ↦
      if ltb (length (x ∷ xs)) n
      then some (overran c' outs)
      else prepend outs (process_message fuel (drop n (x ∷ xs)) c')
]

-- `get_best_bid`, `get_best_ask`
unfoldable pub best_bid : ℕ → MdClient → PriceLevel
best_bid symbol c = elim (lookup symbol c.symbol_to_order_book) [
  | none ↦ record { price = pos 0; quantity = 0 }
  | some b ↦ get_best_bid b
]

unfoldable pub best_ask : ℕ → MdClient → PriceLevel
best_ask symbol c = elim (lookup symbol c.symbol_to_order_book) [
  | none ↦ record { price = pos 0; quantity = 0 }
  | some b ↦ get_best_ask b
]
