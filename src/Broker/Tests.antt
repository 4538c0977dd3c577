-- ===== src/Broker/Tests.antt =====
-- A broker with one symbol, for matching_engine/me_broker.H: its rounds, and the theorems at it.
use ndfex.Prelude.{◌≡◌, refl, false, [], ◌∷◌, some}
use ndfex.Prelude.Int.{pos, to_uint32, to_int32}
use ndfex.Prelude.Map.{lookup, insert, erase}
use ndfex.Protocol.{buy, sell, MsgType}
use ndfex.Ladder.State.{Order, Ladder}
use ndfex.Ladder.Levels.{find_level, set_level, insert_level, erase_level, unlink}
use ndfex.Ladder.Match.{handle_delete_order, full_match, partial_match, match_orders, match_levels}
use ndfex.Ladder.Operations.{add_order, rest_order, handle_new_order, new_order}
use ndfex.Broker.{
  Payload, Broker, fill_client, on_event, deliver, on_ladder, with_owner, on_request,
  finished_packet, process_one,
}
use ndfex.Broker.Delivery.{published}
use ndfex.Broker.Owners.{with_owner-fill_client}

abbrev ask : Order
ask = record {
  order_id = 1;
  timestamp = 0;
  quantity = 10;
  filled_quantity = 0;
  price = pos 100;
  side = sell;
  flags = 0;
}

abbrev ladder : Ladder
ladder = record {
  symbol = 7;
  orders = (1, ask) ∷ [];
  buy_levels = [];
  sell_levels = (pos 100, 1 ∷ []) ∷ [];
}

abbrev broker : Broker
broker = record {
  client_seq = 0;
  client_id = 0;
  aggressor_side = buy;
  ladders = (7, ladder) ∷ [];
  owners = (1, 55) ∷ [];
  queued_trades = [];
}

abbrev request : Payload
request = record {
  msg_type = MsgType.new_order;
  exch_order_id = 2;
  symbol = 7;
  client_seq = 3;
  client_id = 66;
  side = buy;
  quantity = 10;
  price = 100;
  flags = 0;
}

-- The order with id 1 belongs to client 55 until an order with id 2 ^ 32 + 1 comes in.
with_owner-fill_client_example :
    fill_client 1 false (with_owner (record request { exch_order_id = 4294967297 }) broker)
    ≡ some 66
unfolding lookup
with_owner-fill_client_example =
    with_owner-fill_client (record request { exch_order_id = 4294967297 }) broker ladder 1 refl

process_one-run : published (process_one request broker).2 ≡ 10
unfolding published process_one on_request finished_packet on_ladder with_owner deliver on_event
    to_uint32 to_int32 new_order handle_new_order match_levels match_orders full_match partial_match
    handle_delete_order rest_order add_order lookup insert erase find_level set_level insert_level
    erase_level unlink
process_one-run = refl
