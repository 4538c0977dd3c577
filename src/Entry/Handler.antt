-- ===== src/Entry/Handler.antt =====
-- `ClientHandler` (order_entry/oe_client_handler.cpp): the requests of clients, checked against their
-- sessions and their open orders, and handed to the matching engine.
--
-- The clock and the sockets are not part of this: the time that makes an exchange order id is an
-- argument, and what is put on the queue to the engine is a list of payloads.
pub mod Maps
pub mod Outcomes
pub mod Requests
pub mod Changes
pub mod Closing
pub mod Sockets
pub mod Answers
pub mod Login
mod Tests
use ndfex.Prelude.{
  ℕ, Bool, true, false, not, ◌&&◌, List, [], ◌∷◌, ◌++◌, Option, none, some, ◌==◌, if◌then◌else◌,
}
use ndfex.Prelude.Int.{ℤ, pos, to_uint32}
use ndfex.Prelude.Map.{Map, lookup, insert, erase}
use ndfex.Protocol.{
  Side, buy, MsgType, RejectReason, no_reason, unknown_symbol, invalid_order, duplicate_order_id,
  unknown_order_id, invalid_price, invalid_quantity, invalid_side, unknown_session_id,
  duplicate_login,
}
use ndfex.Broker.{Payload}
use ndfex.Entry.Validator.{SymbolDefinition, validate_new_order}

pub record SessionInfo : Type 0 where
  pub session_id : ℕ
  pub client_id : ℕ
  pub last_seq_num : ℕ
  pub exch_seq_num : ℕ

pub record OpenOrder : Type 0 where
  pub exch_order_id : ℕ
  pub symbol : ℕ

pub record ExchOrder : Type 0 where
  pub client_id : ℕ
  pub order_id : ℕ

pub record Handler : Type 0 where
  pub symbols : Map SymbolDefinition
  pub sock_to_session_info : Map SessionInfo
  pub client_to_sock_fd : Map ℕ
  pub client_to_open_orders : Map (Map OpenOrder)
  pub exch_to_client_orders : Map ExchOrder

-- `oe_request_header`, what the handler reads of it.
pub record Header : Type 0 where
  pub seq_num : ℕ
  pub client_id : ℕ
  pub session_id : ℕ

-- `REJECT_REASON` as a byte
abbrev pub reason_byte : RejectReason → ℕ
reason_byte no_reason = 0
reason_byte unknown_symbol = 1
reason_byte invalid_order = 2
reason_byte duplicate_order_id = 3
reason_byte unknown_order_id = 4
reason_byte invalid_price = 5
reason_byte invalid_quantity = 6
reason_byte invalid_side = 7
reason_byte unknown_session_id = 8
reason_byte duplicate_login = 9

abbrev pub payload : MsgType → ℕ → ℕ → ℕ → ℕ → Side → ℕ → ℤ → ℕ → Payload
payload msg_type id symbol seq client side quantity price flags = record {
  msg_type = msg_type;
  exch_order_id = id;
  symbol = symbol;
  client_seq = seq;
  client_id = client;
  side = side;
  quantity = quantity;
  price = to_uint32 price;
  flags = flags;
}

-- `send_order_reject`
abbrev pub order_reject : Header → RejectReason → ℕ → Payload
order_reject h why id =
    payload MsgType.reject id 0 h.seq_num h.client_id buy 0 (pos 0) (reason_byte why)

-- `validate_session`
abbrev pub validate_session : ℕ → Header → Handler → Bool
validate_session sock h s = elim (lookup sock s.sock_to_session_info) [
  | none ↦ false
  | some i ↦ i.session_id == h.session_id && i.client_id == h.client_id
]

-- `client_to_open_orders[client]`, with an empty map where there is none.
abbrev pub orders_of : ℕ → Handler → Map OpenOrder
orders_of client s = elim (lookup client s.client_to_open_orders) [ none ↦ [] | some m ↦ m ]

-- The open order of a client under its own id.
abbrev pub open_order : ℕ → ℕ → Handler → Option OpenOrder
open_order client id s = lookup id (orders_of client s)

-- A handler's call: none where the validator divides by zero.
abbrev pub Run : Type 0
Run = Option (Handler × List Payload)

abbrev pub is_none : {A : Type 0} → Option A → Bool
is_none none = true
is_none (some a) = false

-- The two writes of a new order.
unfoldable pub record_order : ℕ → Header → ℕ → ℕ → Handler → Handler
record_order now h id symbol s = record s {
  client_to_open_orders =
      insert h.client_id
        (insert id (record { exch_order_id = now; symbol = symbol }) (orders_of h.client_id s))
        s.client_to_open_orders;
  exch_to_client_orders =
      insert now (record { client_id = h.client_id; order_id = id }) s.exch_to_client_orders;
}

-- `client_to_open_orders[client]`, which makes an entry where there is none.
abbrev pub touch : ℕ → Handler → Handler
touch client s = record s {
  client_to_open_orders = insert client (orders_of client s) s.client_to_open_orders;
}

-- `on_new_order`, at the time `now`.
unfoldable pub on_new_order : ℕ → ℕ → Header → ℕ → ℕ → Side → ℕ → ℤ → ℕ → Handler → Run
unfolding record_order
on_new_order now sock h id symbol side quantity price flags s =
    if not (validate_session sock h s)
    then some (s, order_reject h unknown_session_id id ∷ [])
    else elim (validate_new_order s.symbols id symbol side quantity price flags) [
      | none ↦ none
      | some no_reason ↦
          if is_none (open_order h.client_id id s)
          then some (
            record_order now h id symbol s,
            payload MsgType.new_order now symbol h.seq_num h.client_id side quantity price flags
                ∷ [],
          )
          else some (touch h.client_id s, order_reject h duplicate_order_id id ∷ [])
      | some why ↦ some (s, order_reject h why id ∷ [])
    ]

-- `on_delete_order`
unfoldable pub on_delete_order : ℕ → Header → ℕ → Handler → Run
on_delete_order sock h id s =
    if not (validate_session sock h s)
    then some (s, order_reject h unknown_session_id id ∷ [])
    else elim (open_order h.client_id id s) [
      | none ↦ some (s, order_reject h unknown_order_id id ∷ [])
      | some o ↦ some (
        s,
        payload MsgType.delete_order o.exch_order_id o.symbol h.seq_num h.client_id buy 0 (pos 0) 0
            ∷ [],
      )
    ]

-- `on_modify_order`
unfoldable pub on_modify_order : ℕ → Header → ℕ → Side → ℕ → ℤ → Handler → Run
on_modify_order sock h id side quantity price s =
    if not (validate_session sock h s)
    then some (s, order_reject h unknown_session_id id ∷ [])
    else elim (open_order h.client_id id s) [
      | none ↦ some (s, order_reject h unknown_order_id id ∷ [])
      | some o ↦ elim (validate_new_order s.symbols id o.symbol side quantity price 0) [
        | none ↦ none
        | some no_reason ↦ some (
          s,
          payload MsgType.modify_order o.exch_order_id o.symbol h.seq_num h.client_id side quantity
                price 0
              ∷ [],
        )
        | some why ↦ some (s, order_reject h why id ∷ [])
      ]
    ]

-- The loop of `cancel_all_client_orders`, in one of the orders that a hash map may be walked in.
unfoldable pub cancellations : ℕ → Map OpenOrder → List Payload
cancellations client [] = []
cancellations client ((id, o) ∷ m) =
    payload MsgType.delete_order o.exch_order_id o.symbol 0 client buy 0 (pos 0) 0
    ∷ cancellations client m

-- `on_socket_closed`, with `cancel_all_client_orders`.
unfoldable pub on_socket_closed : ℕ → Handler → Handler × List Payload
unfolding cancellations
on_socket_closed sock s = elim (lookup sock s.sock_to_session_info) [
  | none ↦ (s, [])
  | some i ↦ (
    record s {
      client_to_open_orders = erase i.client_id s.client_to_open_orders;
      client_to_sock_fd = erase i.client_id s.client_to_sock_fd;
      sock_to_session_info = erase sock s.sock_to_session_info;
    },
    cancellations i.client_id (orders_of i.client_id s),
  )
]
