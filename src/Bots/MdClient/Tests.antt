-- ===== src/Bots/MdClient/Tests.antt =====
-- Runs of `MDClient` (bots/md_client.cpp) at concrete packets.
use ndfex.Prelude.{ℕ, ◌≡◌, refl, true, List, [], ◌∷◌, none, arith}
use ndfex.Prelude.Int.{pos}
use ndfex.Prelude.Bytes.{length, read, decode}
use ndfex.Protocol.{buy, sell}
use ndfex.Feed.{Message, new_order, trade, read_header}
use ndfex.Publisher.Frames.{stream}
use ndfex.Bots.MdClient.{MdClient, SnapshotOrder, process_message}
use ndfex.Bots.MdClient.Packets.{process_message-stuck}
use ndfex.Bots.MdClient.Replay.{replay, process_message-replays}
use ndfex.Bots.MdClient.Recovery.{begin_recovery, start_snapshot, is_complete, snapshot_of}
use ndfex.Bots.MdClient.Recovery.Collect.{take_orders, start_snapshot-collects}

abbrev client : MdClient
client = record {
  symbol_to_order_book = [];
  order_to_symbol = [];
  last_md_seq_num = 5;
  live_buffer = [];
  snapshot_buffer = [];
  snapshot_complete = [];
  last_snapshot_seq_num = 0;
  recover_on_drops = true;
}

-- A header that is seen already, and gives its length as 0.
abbrev empty_message : List ℕ
empty_message =
    71 ∷ 79 ∷ 73 ∷ 82 ∷ 73 ∷ 83 ∷ 72 ∷ 33 ∷ 0 ∷ 0 ∷ 5 ∷ 0 ∷ 0 ∷ 0 ∷ 0 ∷ 0 ∷ 0 ∷ 0 ∷ 0 ∷ 0 ∷ 0 ∷ 0
    ∷ 0 ∷ []

process_message-stuck_example : process_message 1000 empty_message client ≡ none
unfolding length read_header decode read
process_message-stuck_example =
    process_message-stuck 1000 empty_message client (omega arith) refl (omega arith) (omega arith)
      refl

-- A heartbeat.
abbrev beat : List ℕ
beat =
    71 ∷ 79 ∷ 73 ∷ 82 ∷ 73 ∷ 83 ∷ 72 ∷ 33 ∷ 23 ∷ 0 ∷ 6 ∷ 0 ∷ 0 ∷ 0 ∷ 0 ∷ 0 ∷ 0 ∷ 0 ∷ 0 ∷ 0 ∷ 0 ∷ 0
    ∷ 0 ∷ []

abbrev clock : ℕ → ℕ
clock n = 0

abbrev messages : List Message
messages = new_order 900 1 buy 10 (pos 100) 0 ∷ trade 900 4 (pos 100) ∷ []

process_message-replays_example :
    process_message 3 (stream clock 6 0 messages) client ≡ replay 6 messages client
unfolding length
process_message-replays_example =
    process_message-replays clock (λ k. omega arith) 3 0 messages client
      (
        (omega arith, omega arith, tt, omega arith, omega arith, omega arith),
        ((omega arith, omega arith, omega arith), tt),
      )
      (omega arith) (omega arith)

abbrev orders : List SnapshotOrder
orders =
    (record { order_id = 900; symbol = 1; side = buy; quantity = 10; price = pos 100 })
    ∷ (record { order_id = 901; symbol = 1; side = sell; quantity = 5; price = pos 110 })
    ∷ []

start_snapshot-collects_example :
    (is_complete 1 (take_orders orders (start_snapshot 1 1 1 6 (begin_recovery client))).client
      ≡ true)
    × (snapshot_of 1 (take_orders orders (start_snapshot 1 1 1 6 (begin_recovery client))).client
        ≡ orders)
start_snapshot-collects_example =
    start_snapshot-collects 1 6 orders (begin_recovery client) (refl, (refl, tt))
