-- ===== src/Entry/Handler/Sockets.antt =====
-- What `ClientHandler` (order_entry/oe_client_handler.cpp) writes to the sockets of its clients.
--
-- The sockets are a parameter: what the calls of `send` for the n-th message give, one after the other, each
-- with the time that has passed since the message was begun.
pub mod Sending
use ndfex.Prelude.{
  ℕ, suc, ◌+◌, ◌%◌, ◌^◌, Bool, true, false, List, [], ◌∷◌, ◌++◌, Option, none, some, ltb,
  if◌then◌else◌,
}
use ndfex.Prelude.Int.{ℤ}
use ndfex.Prelude.Map.{lookup, insert}
use ndfex.Broker.{Payload}
use ndfex.Entry.Handler.{Handler, SessionInfo, on_socket_closed}

-- `send`: so many bytes, `EAGAIN` or `EWOULDBLOCK`, or another error.
pub data Sent : Type 0 where
  wrote : ℕ → Sent
  would_block : Sent
  fails : Sent

-- The messages to clients, without their headers; an error message is not shown with its text.
pub data Reply : Type 0 where
  login_response : ℕ → ℕ → Reply
  order_ack : ℕ → ℕ → ℕ → ℤ → Reply
  order_reject : ℕ → ℕ → Reply
  order_fill : ℕ → ℕ → ℤ → ℕ → Reply
  order_closed : ℕ → Reply
  error_message : ℕ → Reply

-- `sizeof`
abbrev pub reply_size : Reply → ℕ
reply_size (login_response session status) = 25
reply_size (order_ack id exch_id quantity price) = 40
reply_size (order_reject id why) = 25
reply_size (order_fill id quantity price flags) = 33
reply_size (order_closed id) = 24
reply_size (error_message code) = 51

-- `oe_response_header`, what differs between messages.
pub record ReplyHeader : Type 0 where
  pub seq_num : ℕ
  pub last_seq_num : ℕ
  pub client_id : ℕ

-- A payload for the engine, a message that is begun on a socket, or the end of a socket.
pub data Output : Type 0 where
  request : Payload → Output
  message : ℕ → ReplyHeader → Reply → Output
  shut : ℕ → Output

-- The handler, and how many messages it has begun.
pub record Server : Type 0 where
  pub handler : Handler
  pub begun : ℕ

abbrev pub requests : List Payload → List Output
requests [] = []
requests (p ∷ ps) = request p ∷ requests ps

-- The loop of `write_msg`, over what `send` gives: whether it is done, and none where it goes on.
unfoldable pub send_all : ℕ → ℕ → List (Sent × ℕ) → Option Bool
send_all length bytes_sent [] = if ltb bytes_sent length then none else some true
send_all length bytes_sent ((r, elapsed) ∷ rs) =
    let retry = send_all length bytes_sent rs in
    if ltb bytes_sent length
    then elim r [
      | would_block ↦ retry
      | fails ↦ some false
      | wrote n ↦
          let later = send_all length (bytes_sent + n) rs in
          if ltb 10000000 elapsed then some false else later
    ]
    else some true

abbrev pub with_session : ℕ → SessionInfo → Server → Server
with_session sock i s = record s {
  handler = record (s.handler) {
    sock_to_session_info = insert sock i s.handler.sock_to_session_info;
  };
}

-- `update_last_seq_num`
unfoldable pub update_last_seq_num : ℕ → ℕ → Server → Server
update_last_seq_num sock seq s = elim (lookup sock s.handler.sock_to_session_info) [
  | none ↦ s
  | some i ↦ with_session sock (record i { last_seq_num = seq }) s
]

-- `on_socket_closed`, and the end of the socket.
unfoldable pub close_socket : ℕ → Server → Server × List Output
close_socket sock s =
    let (h, ps) = on_socket_closed sock s.handler in
    (record s { handler = h }, requests ps ++ (shut sock ∷ []))

-- A call, with what it writes; none where a socket holds it up for ever.
abbrev pub Call : Type 0
Call = Option (Server × List Output)

module _ (replies : ℕ → List (Sent × ℕ)) where
  -- `write_msg`, with whether it succeeds.
  unfoldable pub write_msg : ℕ → Reply → Server → Option (Server × List Output × Bool)
  unfolding send_all
  write_msg sock m s = elim (lookup sock s.handler.sock_to_session_info) [
    | none ↦ some (s, [], false)
    | some i ↦ elim (send_all (reply_size m) 0 (replies s.begun)) [
      | none ↦ none
      | some sent ↦ some (
        record (with_session sock (record i { exch_seq_num = (i.exch_seq_num + 1) % 2 ^ 32 }) s) {
          begun = suc s.begun;
        },
        message sock
              (record {
                seq_num = i.exch_seq_num;
                last_seq_num = i.last_seq_num;
                client_id = i.client_id;
              })
              m
            ∷ [],
        sent,
      )
    ]
  ]

  -- What follows a `write_msg`: a socket that fails is closed.
  abbrev pub or_close : ℕ → Option (Server × List Output × Bool) → Call
  or_close sock none = none
  or_close sock (some (s, outs, true)) = some (s, outs)
  or_close sock (some (s, outs, false)) =
      let (s', outs') = close_socket sock s in some (s', outs ++ outs')

  -- `write_msg_to_client`
  unfoldable pub write_msg_to_client : ℕ → ℕ → Reply → Server → Call
  unfolding write_msg close_socket update_last_seq_num
  write_msg_to_client client seq m s = elim (lookup client s.handler.client_to_sock_fd) [
    | none ↦ some (s, [])
    | some sock ↦ or_close sock (write_msg sock m (update_last_seq_num sock seq s))
  ]
