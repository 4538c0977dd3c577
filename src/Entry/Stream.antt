-- ===== src/Entry/Stream.antt =====
-- `StreamParser` (order_entry/oe_stream_parser.H): requests out of the bytes of a socket, whatever its chunks.
--
-- The time of a call of `parse` is an argument. An output is a call of the handler, or an error message with
-- the end of the socket; the text of an error message is left out.
pub mod Chunks
pub mod Loops
mod Tests
use ndfex.Prelude.{
  ℕ, zero, suc, ◌+◌, ◌-◌, ◌%◌, ◌^◌, Bool, true, false, not, List, [], ◌∷◌, ◌++◌, Option, none, some,
  ltb, ◌==◌, if◌then◌else◌,
}
use ndfex.Prelude.Int.{ℤ, to_int32}
use ndfex.Prelude.Map.{Map, lookup, insert, erase}
use ndfex.Prelude.Bytes.{length, drop, Layout, size, decode}
use ndfex.Protocol.{Side}
use ndfex.Feed.{side_of}

-- `oe_request_header`
pub record RequestHeader : Type 0 where
  pub length : ℕ
  pub msg_type : ℕ
  pub version : ℕ
  pub seq_num : ℕ
  pub client_id : ℕ
  pub session_id : ℕ

abbrev pub request_layout : Layout
request_layout = 2 ∷ 1 ∷ 1 ∷ 4 ∷ 4 ∷ 8 ∷ []

abbrev pub request_header_of : List ℕ → RequestHeader
request_header_of (length ∷ msg_type ∷ version ∷ seq_num ∷ client_id ∷ session_id ∷ []) = record {
  length = length;
  msg_type = msg_type;
  version = version;
  seq_num = seq_num;
  client_id = client_id;
  session_id = session_id;
}
request_header_of _ = record {
  length = 0;
  msg_type = 0;
  version = 0;
  seq_num = 0;
  client_id = 0;
  session_id = 0;
}

unfoldable pub request_header : List ℕ → RequestHeader
request_header buf = request_header_of (decode request_layout buf).0

-- What the parser calls; `refuse` is `send_error_msg`.
pub data Call : Type 0 where
  on_new_order : RequestHeader → ℕ → ℕ → Side → ℕ → ℤ → ℕ → Call
  on_delete_order : RequestHeader → ℕ → Call
  on_modify_order : RequestHeader → ℕ → Side → ℕ → ℤ → Call
  on_login : RequestHeader → List ℕ → List ℕ → Call
  refuse : ℕ → ℕ → Call

-- `uint8_t[n]`
abbrev pub array : ℕ → Layout
array zero = []
array (suc n) = 1 ∷ array n

abbrev pub take : ℕ → List ℕ → List ℕ
take zero xs = []
take (suc n) [] = []
take (suc n) (x ∷ xs) = x ∷ take n xs

-- The structs behind the header; none where the type is not a request's.
unfoldable pub body_of : ℕ → Option Layout
body_of t =
    if t == 1
    then some (8 ∷ 4 ∷ 1 ∷ 4 ∷ 4 ∷ 1 ∷ [])
    else if t == 2
    then some (8 ∷ [])
    else if t == 3
    then some (8 ∷ 1 ∷ 4 ∷ 4 ∷ [])
    else if t == 99
    then some (array 32)
    else none

abbrev pub order_call : RequestHeader → List ℕ → Option Call
order_call h (id ∷ symbol ∷ side ∷ quantity ∷ price ∷ flags ∷ []) =
    some (on_new_order h id symbol (side_of side) quantity (to_int32 price) flags)
order_call h _ = none

abbrev pub deletion_call : RequestHeader → List ℕ → Option Call
deletion_call h (id ∷ []) = some (on_delete_order h id)
deletion_call h _ = none

abbrev pub change_call : RequestHeader → List ℕ → Option Call
change_call h (id ∷ side ∷ quantity ∷ price ∷ []) =
    some (on_modify_order h id (side_of side) quantity (to_int32 price))
change_call h _ = none

-- The `switch` of `parse`, from the values of the fields.
unfoldable pub call_of : RequestHeader → List ℕ → Option Call
unfolding drop
call_of h vs =
    if h.msg_type == 1
    then order_call h vs
    else if h.msg_type == 2
    then deletion_call h vs
    else if h.msg_type == 3
    then change_call h vs
    else if h.msg_type == 99
    then some (on_login h (take 16 vs) (drop 16 vs))
    else none

abbrev pub max_oe_message_size : ℕ
max_oe_message_size = 52

-- What stands at the front of the bytes of a socket: not yet a whole message, one that ends the socket, one
-- whose struct goes on behind the bytes, or a request with its length.
pub data Front : Type 0 where
  waits : Front
  refused : Call → Front
  cut : Front
  takes : ℕ → Call → Front

abbrev pub taken : ℕ → Option Call → Front
taken n none = cut
taken n (some c) = takes n c

-- A whole message of a request's type.
unfoldable pub parse_body : ℕ → RequestHeader → List ℕ → Front
unfolding body_of call_of
parse_body bytes h buf = elim (body_of h.msg_type) [
  | none ↦ refused (refuse h.seq_num h.client_id)
  | some ws ↦
      if ltb bytes (size request_layout + size ws)
      then cut
      else taken h.length (call_of h (decode ws (decode request_layout buf).1).0)
]

-- A turn of the loop, with a whole header `h` at the front of `bytes` bytes.
unfoldable pub parse_whole : ℕ → RequestHeader → List ℕ → Front
unfolding parse_body
parse_whole bytes h buf =
    if not (h.version == 1)
    then refused (refuse h.seq_num h.client_id)
    else if ltb max_oe_message_size h.length
    then refused (refuse h.seq_num h.client_id)
    else if ltb bytes h.length
    then waits
    else parse_body bytes h buf

unfoldable pub parse_front : List ℕ → Front
unfolding parse_whole request_header
parse_front buf =
    if ltb (length buf) (size request_layout)
    then waits
    else parse_whole (length buf) (request_header buf) buf

-- How the loop ends: it waits for more bytes behind these, it has ended the socket, or it reads behind the
-- bytes. The calls are those that it made, in order.
pub data Parsed : Type 0 where
  waiting : List ℕ → List Call → Parsed
  closed : List ℕ → List Call → Parsed
  cut_off : List Call → Parsed

abbrev pub after_call : Call → Option Parsed → Option Parsed
after_call c none = none
after_call c (some (waiting buf cs)) = some (waiting buf (c ∷ cs))
after_call c (some (closed buf cs)) = some (closed buf (c ∷ cs))
after_call c (some (cut_off cs)) = some (cut_off (c ∷ cs))

-- The loop of `parse`, with fuel; none where it runs out.
unfoldable pub parse_loop : ℕ → List ℕ → Option Parsed
unfolding parse_front
parse_loop zero buf = none
parse_loop (suc fuel) buf = elim (parse_front buf) [
  | waits ↦ some (waiting buf [])
  | refused c ↦ some (closed buf (c ∷ []))
  | cut ↦ some (cut_off [])
  | takes n c ↦ after_call c (parse_loop fuel (drop n buf))
]

pub record Parser : Type 0 where
  pub sock_to_partial_messages : Map (List ℕ)
  pub sock_to_msg_timestamps : Map (List ℕ)

abbrev pub entry_of : ℕ → Map (List ℕ) → List ℕ
entry_of sock m = elim (lookup sock m) [ none ↦ [] | some xs ↦ xs ]

-- Timestamps older than one second go.
unfoldable pub recent : ℕ → List ℕ → List ℕ
recent now [] = []
recent now (t ∷ ts) =
    let rest = recent now ts in if ltb (10 ^ 9) ((now + 2 ^ 64 - t) % 2 ^ 64) then rest else t ∷ ts

-- Each request that is handed on leaves the time.
abbrev pub stamped : ℕ → List Call → List ℕ → List ℕ
stamped now [] ts = ts
stamped now (refuse seq client ∷ cs) ts = stamped now cs ts
stamped now (c ∷ cs) ts = stamped now cs (ts ++ (now ∷ []))

abbrev pub finish : ℕ → ℕ → List ℕ → Parser → Option Parsed → Option (Parser × List Call)
finish now sock ts p none = none
finish now sock ts p (some (cut_off cs)) = none
finish now sock ts p (some (waiting buf cs)) = some (
  record {
    sock_to_partial_messages = insert sock buf p.sock_to_partial_messages;
    sock_to_msg_timestamps = insert sock (stamped now cs ts) p.sock_to_msg_timestamps;
  },
  cs,
)
finish now sock ts p (some (closed buf cs)) = some (
  record {
    sock_to_partial_messages = insert sock buf p.sock_to_partial_messages;
    sock_to_msg_timestamps = insert sock (stamped now cs ts) p.sock_to_msg_timestamps;
  },
  cs,
)

-- `parse`, with fuel; none where it runs out, or reads behind the bytes.
unfoldable pub parse : ℕ → ℕ → ℕ → List ℕ → Parser → Option (Parser × List Call)
unfolding parse_loop recent
parse fuel now sock buf p =
    let ts = recent now (entry_of sock p.sock_to_msg_timestamps) in
    if ltb 1000 (length ts)
    then some (
      record p { sock_to_msg_timestamps = insert sock ts p.sock_to_msg_timestamps },
      refuse 0 0 ∷ [],
    )
    else finish now sock ts p (parse_loop fuel (entry_of sock p.sock_to_partial_messages ++ buf))

-- `socket_closed`, without the handler's `on_socket_closed`.
unfoldable pub forget_socket : ℕ → Parser → Parser
forget_socket sock p = record p { sock_to_partial_messages = erase sock p.sock_to_partial_messages }

unfoldable pub new_socket : ℕ → Parser → Parser
new_socket sock p = record {
  sock_to_partial_messages = insert sock [] p.sock_to_partial_messages;
  sock_to_msg_timestamps = insert sock [] p.sock_to_msg_timestamps;
}
