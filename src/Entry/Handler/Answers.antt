-- ===== src/Entry/Handler/Answers.antt =====
-- `ClientHandler::process` (order_entry/oe_client_handler.cpp): the answers of the matching engine go to
-- the clients whose orders they are about.
pub mod Orders
use Prim.Native.Nat.{◌/◌}
use ndfex.Prelude.{
  ℕ, ◌%◌, Bool, true, false, List, [], ◌∷◌, ◌++◌, Option, none, some, ◌==◌, if◌then◌else◌,
}
use ndfex.Prelude.Int.{to_int32}
use ndfex.Prelude.Map.{lookup, insert, erase}
use ndfex.Protocol.{MsgType}
use ndfex.Broker.{Payload}
use ndfex.Entry.Handler.{Handler, ExchOrder, orders_of}
use ndfex.Entry.Handler.Sockets.{
  Sent, Output, Server, Call, order_ack, order_reject, order_fill, order_closed,
  write_msg_to_client,
}

-- `client_to_open_orders[client].erase(id)`, and the end of the exchange's id.
unfoldable pub forget_order : ℕ → ExchOrder → Handler → Handler
forget_order exch_id o h = record h {
  client_to_open_orders =
      insert o.client_id (erase o.order_id (orders_of o.client_id h)) h.client_to_open_orders;
  exch_to_client_orders = erase exch_id h.exch_to_client_orders;
}

abbrev pub and_forget : ℕ → ExchOrder → Call → Call
and_forget exch_id o none = none
and_forget exch_id o (some (s, outs)) =
    some (record s { handler = forget_order exch_id o s.handler }, outs)

-- `fill.flags & FILL_FLAGS::CLOSED`
abbrev pub is_closing : ℕ → Bool
is_closing flags = (flags / 2) % 2 == 1

abbrev pub is_reject : MsgType → Bool
is_reject MsgType.reject = true
is_reject _ = false

module _ (replies : ℕ → List (Sent × ℕ)) where
  -- The `switch` of `process`, for an order that is known.
  unfoldable pub answer_owner : MsgType → Payload → ExchOrder → Server → Call
  unfolding write_msg_to_client forget_order
  answer_owner MsgType.ack p o s =
      write_msg_to_client replies o.client_id p.client_seq
        (order_ack o.order_id p.exch_order_id p.quantity (to_int32 p.price)) s
  answer_owner MsgType.fill p o s =
      let filled =
        write_msg_to_client replies o.client_id p.client_seq
          (order_fill o.order_id p.quantity (to_int32 p.price) p.flags) s in
      if is_closing p.flags then and_forget p.exch_order_id o filled else filled
  answer_owner MsgType.close p o s =
      and_forget p.exch_order_id o
        (write_msg_to_client replies o.client_id p.client_seq (order_closed o.order_id) s)
  answer_owner _ p o s = some (s, [])

  -- One turn of the loop.
  unfoldable pub on_payload : Payload → Server → Call
  unfolding answer_owner
  on_payload p s =
      if is_reject p.msg_type
      then write_msg_to_client replies p.client_id p.client_seq
          (order_reject p.exch_order_id p.flags) s
      else elim (lookup p.exch_order_id s.handler.exch_to_client_orders) [
        | none ↦ some (s, [])
        | some o ↦ answer_owner p.msg_type p o s
      ]

  abbrev pub followed_by : Call → (Server → Call) → Call
  followed_by none k = none
  followed_by (some (s, outs)) k = elim (k s) [
    | none ↦ none
    | some (s', outs') ↦ some (s', outs ++ outs')
  ]

  -- `process`, with what is on the queue from the engine.
  unfoldable pub process : List Payload → Server → Call
  unfolding on_payload
  process [] s = some (s, [])
  process (p ∷ ps) s = followed_by (on_payload p s) (process ps)
