-- ===== src/Entry/Handler/Tests.antt =====
-- A client with one open order, for order_entry/oe_client_handler.cpp.
use ndfex.Prelude.{
  ℕ, ◌≡◌, Bool, true, false, Option, List, [], ◌∷◌, none, some, refl, arith, ◌==◌, if◌then◌else◌,
}
use ndfex.Prelude.Int.{pos, to_uint32}
use ndfex.Prelude.Map.{lookup}
use ndfex.Prelude.Bytes.{length}
use ndfex.Protocol.{MsgType}
use ndfex.Broker.{Payload}
use ndfex.Protocol.{buy, invalid_price}
use ndfex.Entry.Validator.{validate_new_order}
use ndfex.Entry.Handler.{
  Handler, Header, OpenOrder, orders_of, order_reject as reject_of, on_new_order, on_delete_order,
  on_modify_order, on_socket_closed,
}
use ndfex.Prelude.Map.{Map, IsUnique}
use ndfex.Entry.Validator.Checks.{IsTradable}
use ndfex.Entry.Handler.Maps.{IsPaired}
use ndfex.Entry.Handler.Changes.{
  DeletionOutcome, ChangeOutcome, on_delete_order-Handles, on_modify_order-Handles,
}
use ndfex.Entry.Handler.Closing.{Closed, on_socket_closed-Closed}
use ndfex.Entry.Handler.Sockets.{
  Sent, wrote, Reply, reply_size, order_ack, order_reject, order_fill, order_closed, send_all,
  Server, error_message, login_response,
}
use ndfex.Entry.Handler.Sockets.Sending.{send_all-ends}
use ndfex.Entry.Handler.Answers.{process}
use ndfex.Entry.Handler.Answers.Orders.{Settles, process-Settles}
use ndfex.Entry.Handler.Login.{UserInfo, on_login}
use ndfex.Entry.Handler.Login.Sessions.{IsConnected, Connects, on_login-Connects}
use ndfex.Entry.Handler.Requests.{OrderOutcome, on_new_order-Handles}

abbrev handler : Handler
handler = record {
  symbols =
      (
        1,
        record {
          symbol = 1;
          tick_size = 10;
          min_lot_size = 1;
          max_lot_size = 1000;
          max_price = pos 10000000;
          min_price = pos 0;
        },
      )
      ∷ [];
  sock_to_session_info =
      (4, record { session_id = 77; client_id = 2; last_seq_num = 0; exch_seq_num = 0 }) ∷ [];
  client_to_sock_fd = (2, 4) ∷ [];
  client_to_open_orders = (2, (5, record { exch_order_id = 900; symbol = 1 }) ∷ []) ∷ [];
  exch_to_client_orders = (900, record { client_id = 2; order_id = 5 }) ∷ [];
}

abbrev header : Header
header = record { seq_num = 1; client_id = 2; session_id = 77 }

handler-IsPaired : IsPaired handler
unfolding lookup
handler-IsPaired client id o e = ground arith

handler-IsTradable : IsTradable handler.symbols
unfolding lookup
handler-IsTradable symbol d e = ground (arith, e)

on_delete_order-Handles_example :
    DeletionOutcome 4 header 5 handler (on_delete_order 4 header 5 handler)
on_delete_order-Handles_example = on_delete_order-Handles 4 header 5 handler handler-IsPaired

on_new_order-Handles_example :
    OrderOutcome 901 4 header 6 1 buy 10
      (pos 100)
      0
      handler
      (on_new_order 901 4 header 6 1 buy 10 (pos 100) 0 handler)
unfolding lookup
on_new_order-Handles_example =
    on_new_order-Handles 901 4 header 6 1 buy 10 (pos 100) 0 handler handler-IsPaired refl
      handler-IsTradable

-- The open order of the client is in symbol 1.
on_modify_order-Handles_example :
    ChangeOutcome 4 header 5 buy 10
      (pos 110)
      handler
      (on_modify_order 4 header 5 buy 10 (pos 110) handler)
on_modify_order-Handles_example =
    on_modify_order-Handles 4 header 5 buy 10 (pos 110) handler handler-IsPaired handler-IsTradable

-- A price of 105 is not in ticks.
off_tick_run :
    on_modify_order 4 header 5 buy 10 (pos 105) handler
    ≡ some (handler, reject_of header invalid_price 5 ∷ [])
unfolding on_modify_order validate_new_order lookup to_uint32
off_tick_run = refl

abbrev one_order : Bool → Option (Map OpenOrder)
one_order b =
    if◌then◌else◌ {A = Option (Map OpenOrder)} b
      (some ((5, record { exch_order_id = 900; symbol = 1 }) ∷ [])) none

one_order-IsUnique : (b : Bool) → IsUnique (elim (one_order b) [ none ↦ [] | some m ↦ m ])
unfolding lookup
one_order-IsUnique true = (refl, tt)
one_order-IsUnique false = tt

handler-IsUnique : (client : ℕ) → IsUnique (orders_of client handler)
unfolding lookup
handler-IsUnique client = one_order-IsUnique (2 == client)

on_socket_closed-Closed_example : Closed 4 handler (on_socket_closed 4 handler)
on_socket_closed-Closed_example =
    on_socket_closed-Closed 4 handler handler-IsPaired handler-IsUnique

-- Sockets that take any message at once.
abbrev replies : ℕ → List (Sent × ℕ)
replies n = (wrote 100, 0) ∷ []

takes_all :
    (n : ℕ) (m : Reply) → (done : Bool) × (send_all (reply_size m) 0 (replies n) ≡ some done)
unfolding send_all
takes_all n (login_response session status) = (true, refl)
takes_all n (order_ack id exch_id quantity price) = (true, refl)
takes_all n (order_reject id why) = (true, refl)
takes_all n (order_fill id quantity price flags) = (true, refl)
takes_all n (order_closed id) = (true, refl)
takes_all n (error_message code) = (true, refl)

abbrev server : Server
server = record { handler = handler; begun = 0 }

send_all-ends_example :
    (done : Bool) × (send_all 2 0 ((wrote 1, 5) ∷ (wrote 1, 9) ∷ []) ≡ some done)
unfolding length
send_all-ends_example =
    send_all-ends 2 0 ((wrote 1, 5) ∷ (wrote 1, 9) ∷ []) (omega arith, (omega arith, tt))
      (omega arith)

-- The order of the client is filled, and closed.
abbrev fill : Payload
fill = record {
  msg_type = MsgType.fill;
  exch_order_id = 900;
  symbol = 1;
  client_seq = 3;
  client_id = 2;
  side = buy;
  quantity = 10;
  price = 100;
  flags = 2;
}

process-Settles_example : Settles (process replies (fill ∷ []) server)
process-Settles_example = process-Settles replies takes_all (fill ∷ []) server handler-IsPaired

handler-IsConnected : IsConnected handler
unfolding lookup
handler-IsConnected client sock e = ground arith

abbrev users : List UserInfo
users = (record { username = 97 ∷ []; password = 98 ∷ []; client_id = 2 }) ∷ []

-- The client is logged in on socket 4, and logs in on socket 6.
on_login-Connects_example : Connects (
    on_login replies users 78 6
      (record { seq_num = 1; client_id = 2; session_id = 0 })
      (97 ∷ 0 ∷ [])
      (98 ∷ 0 ∷ [])
      server)
unfolding lookup
on_login-Connects_example =
    on_login-Connects replies takes_all users 78 6
      (record { seq_num = 1; client_id = 2; session_id = 0 }) (97 ∷ 0 ∷ []) (98 ∷ 0 ∷ []) server
      refl handler-IsConnected
