-- ===== src/Broker.antt =====
-- `MatchingEngineBroker` (matching_engine/me_broker.H): requests from the queue go to the ladder of their
-- symbol, and what the ladder calls back goes to the clients, to market data and to clearing.
--
-- The two queues, the publishers' sockets and the clock are not part of this: a request is taken
-- from a list, and what the broker hands on is a list of outputs, in order. An exception ends the
-- broker's thread, so that nothing reads the state that it leaves.
pub mod Delivery
pub mod Requests
pub mod Owners
mod Tests
use ndfex.Prelude.{
  ℕ, ◌+◌, ◌%◌, ◌^◌, Bool, true, false, List, [], ◌∷◌, ◌++◌, Option, none, some, ltb, if◌then◌else◌,
}
use ndfex.Prelude.Int.{ℤ, pos, to_uint32, to_int32}
use ndfex.Prelude.Map.{Map, lookup, insert}
use ndfex.Protocol.{Side, buy, MsgType, FillFlag, partial_fill, closed}
use ndfex.Ladder.State.{
  Ladder, Event, on_trade, on_fill, on_new_order, on_modify_order, on_delete_order,
  on_cancel_reject, Error, ok, threw, Action,
}
use ndfex.Ladder.Operations.{new_order, delete_order, modify_order}
use ndfex.Ladder.Session.{empty_ladder}

-- `oe_payload` (matching_engine/spsc_oe_queue.H); its price is a `uint32_t`.
pub record Payload : Type 0 where
  pub msg_type : MsgType
  pub exch_order_id : ℕ
  pub symbol : ℕ
  pub client_seq : ℕ
  pub client_id : ℕ
  pub side : Side
  pub quantity : ℕ
  pub price : ℕ
  pub flags : ℕ

-- A trade of `queued_trades` of the publisher (matching_engine/md_mcast.H).
pub record Trade : Type 0 where
  pub order_id : ℕ
  pub quantity : ℕ
  pub price : ℤ

-- What the broker hands on: answers to the queue `to_client`, messages of the market data publisher,
-- and fills of the clearing publisher.
pub data Output : Type 0 where
  answer : Payload → Output
  publish_new_order : ℕ → ℕ → Side → ℕ → ℤ → ℕ → Output
  publish_modify_order : ℕ → Side → ℕ → ℤ → Output
  publish_delete_order : ℕ → Output
  publish_trade_summary : ℕ → Side → ℕ → ℤ → Output
  publish_trade : Trade → Output
  publish_fill : ℕ → ℕ → ℕ → ℤ → Side → Output

pub record Broker : Type 0 where
  pub client_seq : ℕ
  pub client_id : ℕ
  pub aggressor_side : Side
  pub ladders : Map Ladder
  pub owners : Map ℕ
  pub queued_trades : List Trade

-- The exceptions: those of the ladder, and the broker's own.
pub data Fault : Type 0 where
  in_ladder : Error → Fault
  unknown_owner invalid_symbol invalid_message : Fault

pub data Result : Type 0 where
  done : Result
  failed : Fault → Result

abbrev pub Run : Type 0
Run = Result × Broker × List Output

abbrev pub Step : Type 0
Step = Broker → Run

infixl 5 ◌then◌
abbrev pub ◌then◌ : Step → Step → Step
◌then◌ m k b =
    let (r, b', outs) = m b in
    elim r [
      | done ↦ let (r', b'', outs') = k b' in (r', b'', outs ++ outs')
      | failed f ↦ (failed f, b', outs)
    ]

-- `exch_order_id_to_client_id` has keys of 32 bits.
abbrev pub owner_key : ℕ → ℕ
owner_key id = id % 2 ^ 32

abbrev pub flag_byte : FillFlag → ℕ
flag_byte partial_fill = 1
flag_byte closed = 2

-- `to_client.emplace(...)`, with the client of the request in hand.
abbrev pub answered : MsgType → ℕ → ℕ → Side → ℕ → ℤ → ℕ → Broker → Output
answered msg_type id symbol side quantity price flags b = answer (record {
  msg_type = msg_type;
  exch_order_id = id;
  symbol = symbol;
  client_seq = b.client_seq;
  client_id = b.client_id;
  side = side;
  quantity = quantity;
  price = to_uint32 price;
  flags = flags;
})

-- The client of a fill: that of the request in hand, or the owner of a resting order.
abbrev pub fill_client : ℕ → Bool → Broker → Option ℕ
fill_client id true b = some b.client_id
fill_client id false b = lookup (owner_key id) b.owners

-- The calls `onTrade`, `onFill`, `onNewOrder`, `onModifyOrder`, `onDeleteOrder`, `onCancelReject`.
unfoldable pub on_event : Event → Step
on_event (on_trade id quantity price) b =
    let t : Trade = record { order_id = id; quantity = quantity; price = price } in
    (done, record b { queued_trades = b.queued_trades ++ (t ∷ []) }, [])
on_event (on_fill id symbol side quantity price flag active) b = elim (fill_client id active b) [
  | none ↦ (failed unknown_owner, b, [])
  | some client ↦ (
    done,
    b,
    answer (record {
      msg_type = MsgType.fill;
      exch_order_id = id;
      symbol = symbol;
      client_seq = if active then b.client_seq else 0;
      client_id = client;
      side = side;
      quantity = quantity;
      price = to_uint32 price;
      flags = flag_byte flag;
    })
        ∷ publish_fill client symbol quantity price side
        ∷ [],
  )
]
on_event (on_new_order id symbol side quantity price flags) b = (
  done,
  b,
  (if ltb 0 quantity then publish_new_order id symbol side quantity price flags ∷ [] else [])
      ++ (answered MsgType.ack id symbol side quantity price flags b ∷ []),
)
on_event (on_modify_order id symbol side quantity price) b = (
  done,
  b,
  publish_modify_order id side quantity price
      ∷ answered MsgType.ack id symbol side quantity price 0 b
      ∷ [],
)
on_event (on_delete_order id publish) b = (
  done,
  b,
  (if publish then publish_delete_order id ∷ [] else [])
      ++ (answered MsgType.close id 0 buy 0 (pos 0) 0 b ∷ []),
)
on_event (on_cancel_reject id) b = (done, b, answered MsgType.reject id 0 buy 0 (pos 0) 0 b ∷ [])

-- The calls of one method of a ladder.
unfoldable pub deliver : List Event → Step
unfolding on_event
deliver [] b = (done, b, [])
deliver (e ∷ es) b = (on_event e then deliver es) b

-- A method of the ladder of a symbol, with its calls.
unfoldable pub on_ladder : ℕ → Action (Unit {0}) → Step
unfolding deliver
on_ladder symbol method b = elim (lookup symbol b.ladders) [
  | none ↦ (failed invalid_symbol, b, [])
  | some l ↦
      let (r, l', es) = method l in
      (deliver es then (λ b'. elim r [
        | ok a ↦ (done, record b' { ladders = insert symbol l' b'.ladders }, [])
        | threw e ↦ (failed (in_ladder e), b', [])
      ]))
        b
]

-- `publish_queued_trades` (matching_engine/md_mcast.cpp): a summary, then the trades.
abbrev pub total_quantity : List Trade → ℕ
total_quantity [] = 0
total_quantity (t ∷ ts) = (t.quantity + total_quantity ts) % 2 ^ 32

abbrev pub last_price : List Trade → ℤ
last_price [] = pos 0
last_price (t ∷ []) = t.price
last_price (t ∷ u ∷ ts) = last_price (u ∷ ts)

abbrev pub trade_messages : List Trade → List Output
trade_messages [] = []
trade_messages (t ∷ ts) = publish_trade t ∷ trade_messages ts

unfoldable pub finished_packet : ℕ → Step
finished_packet symbol b = elim b.queued_trades [
  | [] ↦ (done, b, [])
  | t ∷ ts ↦ (
    done,
    record b { queued_trades = [] },
    publish_trade_summary symbol b.aggressor_side (total_quantity (t ∷ ts)) (last_price (t ∷ ts))
        ∷ trade_messages (t ∷ ts),
  )
]

-- The owner of a new order, by a write under a key of 32 bits.
unfoldable pub with_owner : Payload → Broker → Broker
with_owner p b = elim (lookup p.symbol b.ladders) [
  | none ↦ b
  | some l ↦ record b {
    owners = insert (owner_key p.exch_order_id) p.client_id b.owners;
    aggressor_side = p.side;
  }
]

-- The switch of `process`.
unfoldable pub on_request : Payload → Step
unfolding on_ladder with_owner
on_request p b = elim p.msg_type [
  | MsgType.new_order ↦
      on_ladder p.symbol (new_order p.exch_order_id p.side p.quantity (to_int32 p.price) p.flags 0)
        (with_owner p b)
  | MsgType.delete_order ↦ on_ladder p.symbol (delete_order true p.exch_order_id) b
  | MsgType.modify_order ↦
      on_ladder p.symbol (modify_order p.exch_order_id p.side p.quantity (to_int32 p.price))
        (record b { aggressor_side = p.side })
  | MsgType.reject ↦ (done, b, answer (record p { client_seq = b.client_seq }) ∷ [])
  | _ ↦ (failed invalid_message, b, [])
]

-- One round of the loop of `process`.
unfoldable pub process_one : Payload → Step
unfolding on_request finished_packet
process_one p b =
    (on_request p then finished_packet p.symbol)
      (record b { client_seq = p.client_seq; client_id = p.client_id })

-- The loop, over the requests that are in the queue.
unfoldable pub process : List Payload → Step
unfolding process_one
process [] b = (done, b, [])
process (p ∷ ps) b = (process_one p then process ps) b

-- `add_symbol`
unfoldable pub add_symbol : ℕ → Broker → Broker
add_symbol symbol b = record b { ladders = insert symbol (empty_ladder symbol) b.ladders }
