-- ===== src/Snapshots/Writing.antt =====
-- The snapshots of `SnapshotWriter` (market_data/snapshot_writer.cpp): sorted, and written into packets.
--
-- The sorting, the socket and the clock are parameters: `std::sort` by a comparison, whether `sendto` takes a
-- whole packet, and what the n-th call of `nanotime` for a message gives. An output is a packet.
pub mod Packets
use ndfex.Prelude.{
  ℕ, suc, ◌+◌, Bool, true, false, List, [], ◌∷◌, ◌++◌, none, some, ltb, if◌then◌else◌,
}
use ndfex.Prelude.Int.{ℤ, ltb_ℤ}
use ndfex.Prelude.Map.{Map}
use ndfex.Prelude.Bytes.{length}
use ndfex.Prelude.Steps.{Step, ◌then◌}
use ndfex.Feed.{snapshot_magic_number, Message, new_order, snapshot_info, size_of, write_struct}
use ndfex.Snapshots.{OpenOrder, Writer, orders_at}

pub record Sender : Type 0 where
  pub buffer : List ℕ
  pub stamps : ℕ

abbrev pub buffer_capacity : ℕ
buffer_capacity = 1460

-- `send`
unfoldable pub send : (List ℕ → Bool) → Step Sender (List ℕ)
send sendto s = if sendto s.buffer then some (record s { buffer = [] }, s.buffer ∷ []) else none

-- The struct at the end of the buffer, with sequence number 0.
unfoldable pub append_message : (ℕ → ℕ) → Message → Step Sender (List ℕ)
append_message nanotime m s = some (
  record {
    buffer = s.buffer ++ write_struct snapshot_magic_number 0 (nanotime s.stamps) m;
    stamps = suc s.stamps;
  },
  [],
)

-- The messages of a list of orders.
abbrev pub order_messages : List OpenOrder → List Message
order_messages [] = []
order_messages (o ∷ os) =
    new_order o.order_id o.symbol o.side o.quantity o.price o.flags ∷ order_messages os

abbrev pub symbol_messages : ℕ → Writer → List Message
symbol_messages symbol w =
    snapshot_info symbol (length (orders_at symbol w.symbol_to_bids))
      (length (orders_at symbol w.symbol_to_asks)) w.last_md_seq_num
    ∷ (order_messages (orders_at symbol w.symbol_to_bids)
        ++ order_messages (orders_at symbol w.symbol_to_asks))

-- Best price first.
abbrev pub bid_before : OpenOrder → OpenOrder → Bool
bid_before a b = ltb_ℤ b.price a.price

abbrev pub ask_before : OpenOrder → OpenOrder → Bool
ask_before a b = ltb_ℤ a.price b.price

abbrev pub sort_all :
    (List OpenOrder → List OpenOrder) → Map (List OpenOrder) → Map (List OpenOrder)
sort_all sort [] = []
sort_all sort ((symbol, os) ∷ m) = (symbol, sort os) ∷ sort_all sort m

unfoldable pub sort_orders :
    ((OpenOrder → OpenOrder → Bool) → List OpenOrder → List OpenOrder) → Writer → Writer
sort_orders sort w = record w {
  symbol_to_bids = sort_all (sort bid_before) w.symbol_to_bids;
  symbol_to_asks = sort_all (sort ask_before) w.symbol_to_asks;
}

module _ (sendto : List ℕ → Bool) (nanotime : ℕ → ℕ) where
  -- `write_order`, `write_snapshot_info`
  unfoldable pub write_message : Message → Step Sender (List ℕ)
  unfolding send append_message
  write_message m s =
      if ltb buffer_capacity (length s.buffer + size_of m)
      then (send sendto then append_message nanotime m) s
      else append_message nanotime m s

  unfoldable pub write_all : List Message → Step Sender (List ℕ)
  unfolding write_message
  write_all [] s = some (s, [])
  write_all (m ∷ ms) s = (write_message m then write_all ms) s

  -- The snapshot of a symbol.
  unfoldable pub write_symbol : ℕ → Writer → Step Sender (List ℕ)
  unfolding write_all send
  write_symbol symbol w s = (write_all (symbol_messages symbol w) then send sendto) s

  -- The loop over the symbols, in the order of the map.
  unfoldable pub write_symbols : Map (List OpenOrder) → Writer → Step Sender (List ℕ)
  unfolding write_symbol
  write_symbols [] w s = some (s, [])
  write_symbols ((symbol, os) ∷ m) w s = (write_symbol symbol w then write_symbols m w) s
