-- ===== src/Publisher.antt =====
-- `MarketDataPublisher` (matching_engine/md_mcast.cpp, matching_engine/md_mcast.H): messages get a sequence
-- number each, gather in a buffer, and leave it in packets.
--
-- The socket and the clock are parameters: whether `sendto` takes a packet, and what the n-th call of
-- `nanotime` gives. An output is a packet.
pub mod Frames
pub mod Packets
mod Tests
use ndfex.Prelude.{
  ℕ, suc, ◌+◌, ◌%◌, ◌^◌, Bool, true, false, List, [], ◌∷◌, ◌++◌, none, some, ltb, if◌then◌else◌,
}
use ndfex.Prelude.Int.{to_int32}
use ndfex.Prelude.Bytes.{length}
use ndfex.Prelude.Steps.{Step, ◌then◌}
use ndfex.Protocol.{Side}
use ndfex.Feed.{
  magic_number, Message, heartbeat, new_order, delete_order, modify_order, trade, trade_summary,
  size_of, write_struct,
}

-- `queue_trade` writes its arguments into a struct, whose price is an `int32_t`.
pub record QueuedTrade : Type 0 where
  pub order_id : ℕ
  pub quantity : ℕ
  pub price : ℕ

pub record Publisher : Type 0 where
  pub buffer : List ℕ
  pub seq_num : ℕ
  pub stamps : ℕ
  pub queued_trades : List QueuedTrade

abbrev pub buffer_capacity : ℕ
buffer_capacity = 1460

-- `queue_trade`
unfoldable pub queue_trade : ℕ → ℕ → ℕ → Publisher → Publisher
queue_trade id quantity price p = record p {
  queued_trades =
      p.queued_trades ++ (record { order_id = id; quantity = quantity; price = price } ∷ []);
}

-- `uint32_t total_quantity`, and the price of the last trade.
unfoldable pub total_quantity : List QueuedTrade → ℕ
total_quantity [] = 0
total_quantity (t ∷ ts) = (t.quantity + total_quantity ts) % 2 ^ 32

unfoldable pub last_price : List QueuedTrade → ℕ
last_price [] = 0
last_price (t ∷ []) = t.price
last_price (t ∷ u ∷ ts) = last_price (u ∷ ts)

abbrev pub trade_messages : List QueuedTrade → List Message
trade_messages [] = []
trade_messages (t ∷ ts) = trade t.order_id t.quantity (to_int32 t.price) ∷ trade_messages ts

-- `send`
unfoldable pub send : (List ℕ → Bool) → Step Publisher (List ℕ)
send sendto p =
    if ltb 0 (length p.buffer)
    then if sendto p.buffer then some (record p { buffer = [] }, p.buffer ∷ []) else none
    else some (p, [])

-- The end of `write_msg`: the struct at the end of the buffer.
unfoldable pub append_msg : (ℕ → ℕ) → Message → Step Publisher (List ℕ)
append_msg nanotime m p = some (
  record p {
    buffer = p.buffer ++ write_struct magic_number p.seq_num (nanotime p.stamps) m;
    seq_num = (p.seq_num + 1) % 2 ^ 32;
    stamps = suc p.stamps;
  },
  [],
)

abbrev pub clear_trades : Step Publisher (List ℕ)
clear_trades p = some (record p { queued_trades = [] }, [])

module _ (sendto : List ℕ → Bool) (nanotime : ℕ → ℕ) where
  -- `write_msg`, and the like of it in `publish_hearbeat`.
  unfoldable pub write_msg : Message → Step Publisher (List ℕ)
  unfolding send append_msg
  write_msg m p =
      if ltb buffer_capacity (length p.buffer + size_of m)
      then (send sendto then append_msg nanotime m) p
      else append_msg nanotime m p

  unfoldable pub write_all : List Message → Step Publisher (List ℕ)
  unfolding write_msg
  write_all [] p = some (p, [])
  write_all (m ∷ ms) p = (write_msg m then write_all ms) p

  -- `publish_new_order`, `publish_delete_order`, `publish_modify_order`, `publish_hearbeat`
  unfoldable pub publish_new_order : ℕ → ℕ → Side → ℕ → ℕ → ℕ → Step Publisher (List ℕ)
  unfolding write_msg send
  publish_new_order id symbol side quantity price flags p =
      (write_msg (new_order id symbol side quantity (to_int32 price) flags) then send sendto) p

  unfoldable pub publish_delete_order : ℕ → Step Publisher (List ℕ)
  unfolding write_msg send
  publish_delete_order id p = (write_msg (delete_order id) then send sendto) p

  unfoldable pub publish_modify_order : ℕ → Side → ℕ → ℕ → Step Publisher (List ℕ)
  unfolding write_msg send
  publish_modify_order id side quantity price p =
      (write_msg (modify_order id side quantity (to_int32 price)) then send sendto) p

  unfoldable pub publish_hearbeat : Step Publisher (List ℕ)
  unfolding write_msg send
  publish_hearbeat p = (write_msg heartbeat then send sendto) p

  -- `publish_queued_trades`, with the queue in hand
  unfoldable pub publish_trades : ℕ → Side → List QueuedTrade → Step Publisher (List ℕ)
  unfolding write_all send total_quantity last_price
  publish_trades symbol aggressor [] p = some (p, [])
  publish_trades symbol aggressor (t ∷ ts) p =
      (write_msg (
            trade_summary symbol aggressor (total_quantity (t ∷ ts))
              (to_int32 (last_price (t ∷ ts))))
          then write_all (trade_messages (t ∷ ts))
          then clear_trades
          then send sendto)
        p

  unfoldable pub publish_queued_trades : ℕ → Side → Step Publisher (List ℕ)
  unfolding publish_trades
  publish_queued_trades symbol aggressor p = publish_trades symbol aggressor p.queued_trades p
