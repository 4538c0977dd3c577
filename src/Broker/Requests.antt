-- ===== src/Broker/Requests.antt =====
-- A new order in `MatchingEngineBroker::process` (matching_engine/me_broker.H), from the request to what
-- clearing and the market are told.
use ndfex.Prelude.{ℕ, ◌+◌, ◌<◌, ◌≡◌, refl, Bool, true, ◌&&◌, List, [], ◌∷◌, none, some, arith}
use ndfex.Prelude.Int.{to_int32}
use ndfex.Prelude.Map.{Map, lookup, insert}
use ndfex.Protocol.{MsgType}
use ndfex.Ladder.State.{Outcome, Order, Event, Ladder, opposite, own}
use ndfex.Ladder.Operations.{new_order}
use ndfex.Ladder.Book.{IsBook}
use ndfex.Ladder.Market.{Market, view, orders_of}
use ndfex.Broker.{
  Payload, Trade, Output, Broker, done, owner_key, finished_packet, publish_trade_summary,
  total_quantity, last_price, trade_messages,
}
use ndfex.Broker.Delivery.{is_some, trades, cleared, published, queued}

-- Every order of a list has an owner.
abbrev pub have_owners : Map ℕ → List Order → Bool
have_owners owners [] = true
have_owners owners (o ∷ os) =
    is_some (lookup (owner_key o.order_id) owners) && have_owners owners os

traded_by : List Trade → ℕ
traded_by [] = 0
traded_by (t ∷ ts) = t.quantity + traded_by ts

published-trade_messages : (ts : List Trade) → published (trade_messages ts) ≡ traded_by ts
unfolding published traded_by
published-trade_messages [] = refl
published-trade_messages (t ∷ ts) = ground (arith, published-trade_messages ts)

cleared-trade_messages : (ts : List Trade) → cleared (trade_messages ts) ≡ 0
unfolding cleared
cleared-trade_messages [] = refl
cleared-trade_messages (t ∷ ts) = cleared-trade_messages ts

-- The end of a round: the queue is empty, and its trades are published.
record Finishes (symbol : ℕ) (b : Broker) : Type 0 where
  outputs : List Output
  after : Broker
  runs : finished_packet symbol b ≡ (done, after, outputs)
  queue : after.queued_trades ≡ []
  clears : cleared outputs ≡ 0
  publishes : published outputs ≡ traded_by b.queued_trades

finished_packet-Finishes : (symbol : ℕ) (b : Broker) → Finishes symbol b
unfolding finished_packet cleared published traded_by
finished_packet-Finishes symbol b = go b.queued_trades refl
  where
    go : (ts : List Trade) → b.queued_trades ≡ ts → Finishes symbol b
    go [] e = record {
      outputs = [];
      after = b;
      runs = ground (arith, e);
      queue = e;
      clears = refl;
      publishes = rw e refl;
    }
    go (t ∷ ts) e = record {
      outputs =
          publish_trade_summary symbol b.aggressor_side (total_quantity (t ∷ ts))
            (last_price (t ∷ ts))
          ∷ trade_messages (t ∷ ts);
      after = record b { queued_trades = [] };
      runs = ground (arith, e);
      queue = refl;
      clears = cleared-trade_messages ts;
      publishes = rw e (ground (arith, published-trade_messages ts));
    }

module _ (p : Payload) (b : Broker) (l : Ladder) (is_new : p.msg_type ≡ MsgType.new_order)
    (found : lookup p.symbol b.ladders ≡ some l) (valid : IsBook l)
    (fresh : lookup p.exch_order_id l.orders ≡ none) (some_quantity : 0 < p.quantity)
    (owners : have_owners b.owners (orders_of (opposite (own p.side)) (view l)) ≡ true)
    (none_queued : b.queued_trades ≡ []) where
  abbrev in_hand : Broker
  in_hand = record b {
    client_seq = p.client_seq;
    client_id = p.client_id;
    owners = insert (owner_key p.exch_order_id) p.client_id b.owners;
    aggressor_side = p.side;
  }

  abbrev method : Outcome (Unit {0}) × Ladder × List Event
  method = new_order p.exch_order_id p.side p.quantity (to_int32 p.price) p.flags 0 l

  abbrev served : Broker
  served = record (queued in_hand (trades method.2)) {
    ladders = insert p.symbol method.1 b.ladders;
  }

  abbrev finish : Finishes p.symbol served
  finish = finished_packet-Finishes p.symbol served
