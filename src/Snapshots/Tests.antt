-- ===== src/Snapshots/Tests.antt =====
-- A snapshot writer (market_data/snapshot_writer.cpp) with some payloads.
use ndfex.Prelude.{ℕ, Bool, ◌≡◌, refl, true, List, [], ◌∷◌, arith}
use ndfex.Prelude.Int.{pos}
use ndfex.Prelude.Map.{lookup, insert}
use ndfex.Protocol.{buy, sell}
use ndfex.Snapshots.{
  MdPayload, Writer, apply, apply_all, add_order, modify_order, trade, find_order, replace_first,
  remove_first, reduce,
}
use ndfex.Snapshots.Index.{has, IsIndexed}
use ndfex.Snapshots.Writing.{Sender, symbol_messages, write_symbol}
use ndfex.Snapshots.Writing.Packets.{Sends, write_symbol-Sends}
use ndfex.Snapshots.Methods.{apply_all-IsIndexed}

abbrev writer : Writer
writer = record {
  last_md_seq_num = 0;
  symbol_to_bids = (1, []) ∷ (2, []) ∷ [];
  symbol_to_asks = (1, []) ∷ (2, []) ∷ [];
  order_to_symbol = [];
}

abbrev arrival : MdPayload
arrival = record {
  msg_type = 1;
  seq_num = 1;
  order_id = 900;
  symbol = 1;
  side = buy;
  quantity = 10;
  price = pos 100;
  flags = 0;
}

abbrev payloads : List MdPayload
payloads =
    arrival
    ∷ (record arrival { msg_type = 4; seq_num = 2; quantity = 4 })
    ∷ (record arrival { msg_type = 3; seq_num = 3; side = sell })
    ∷ []

writer-IsIndexed : IsIndexed writer
unfolding lookup has
writer-IsIndexed symbol id h = ground (arith, h)

apply_all-IsIndexed_example : IsIndexed (apply_all payloads writer)
unfolding lookup apply
apply_all-IsIndexed_example =
    apply_all-IsIndexed payloads writer ((λ e. refl), ((λ e. absurd cc), ((λ e. absurd cc), tt)))
      writer-IsIndexed

payloads_run :
    (apply_all payloads writer).symbol_to_asks
    ≡ (
      1,
      (record {
        order_id = 900;
        symbol = 1;
        side = sell;
        quantity = 10;
        price = pos 100;
        flags = 0;
      })
          ∷ [],
    )
      ∷ (2, [])
      ∷ []
unfolding apply_all apply add_order modify_order trade find_order replace_first remove_first reduce
    lookup insert
payloads_run = refl

abbrev takes_all : List ℕ → Bool
takes_all buf = true

abbrev clock : ℕ → ℕ
clock n = n

abbrev idle_sender : Sender
idle_sender = record { buffer = []; stamps = 0 }

-- The snapshot of symbol 1, with the order that arrives.
write_symbol-Sends_example :
    Sends takes_all
      (λ buf. refl)
      clock
      (symbol_messages 1 (apply arrival writer))
      idle_sender
      (write_symbol takes_all clock 1 (apply arrival writer) idle_sender)
write_symbol-Sends_example =
    write_symbol-Sends takes_all (λ buf. refl) clock 1 (apply arrival writer) idle_sender refl
