-- ===== src/Feed.antt =====
-- The messages of market_data/md_protocol.H, as they stand on the wire: packed little-endian structs, each
-- with the header `md_header` in front.
pub mod Codec
mod Tests
use ndfex.Prelude.{
  ℕ, suc, ◌+◌, Bool, true, false, List, [], ◌∷◌, ◌++◌, Option, none, some, ltb, ◌==◌, if◌then◌else◌,
}
use ndfex.Prelude.Int.{ℤ, to_uint32, to_int32}
use ndfex.Prelude.Bytes.{Layout, size, encode, decode}
use ndfex.Protocol.{Side, buy, sell, other}

-- "GOIRISH!" and "SNAPSHOT", read as a `uint64_t`.
abbrev pub magic_number : ℕ
magic_number = 0x2148_5349_5249_4f47

abbrev pub snapshot_magic_number : ℕ
snapshot_magic_number = 0x544f_4853_5041_4e53

-- `md_header`
pub record Header : Type 0 where
  pub magic : ℕ
  pub length : ℕ
  pub seq_num : ℕ
  pub timestamp : ℕ
  pub msg_type : ℕ

abbrev pub header_layout : Layout
header_layout = 8 ∷ 2 ∷ 4 ∷ 8 ∷ 1 ∷ []

-- What a message holds behind its header.
pub data Message : Type 0 where
  heartbeat : Message
  new_order : ℕ → ℕ → Side → ℕ → ℤ → ℕ → Message
  delete_order : ℕ → Message
  modify_order : ℕ → Side → ℕ → ℤ → Message
  trade : ℕ → ℕ → ℤ → Message
  trade_summary : ℕ → Side → ℕ → ℤ → Message
  snapshot_info : ℕ → ℕ → ℕ → ℕ → Message

-- `MSG_TYPE`
abbrev pub type_byte : Message → ℕ
type_byte heartbeat = 0
type_byte (new_order id symbol side quantity price flags) = 1
type_byte (delete_order id) = 2
type_byte (modify_order id side quantity price) = 3
type_byte (trade id quantity price) = 4
type_byte (trade_summary symbol side quantity price) = 5
type_byte (snapshot_info symbol bids asks last_seq) = 6

-- The fields of each struct, by their widths; none where `MSG_TYPE` has no such value.
abbrev pub layout_of : ℕ → Option Layout
layout_of t =
    if t == 0
    then some []
    else if t == 1
    then some (8 ∷ 4 ∷ 1 ∷ 4 ∷ 4 ∷ 1 ∷ [])
    else if t == 2
    then some (8 ∷ [])
    else if t == 3
    then some (8 ∷ 1 ∷ 4 ∷ 4 ∷ [])
    else if t == 4
    then some (8 ∷ 4 ∷ 4 ∷ [])
    else if t == 5
    then some (4 ∷ 1 ∷ 4 ∷ 4 ∷ [])
    else if t == 6
    then some (4 ∷ 4 ∷ 4 ∷ 4 ∷ [])
    else none

abbrev pub side_byte : Side → ℕ
side_byte buy = 1
side_byte sell = 2
side_byte (other b) = b

abbrev pub side_of : ℕ → Side
side_of b = if b == 1 then buy else if b == 2 then sell else other b

abbrev pub values : Message → List ℕ
values heartbeat = []
values (new_order id symbol side quantity price flags) =
    id ∷ symbol ∷ side_byte side ∷ quantity ∷ to_uint32 price ∷ flags ∷ []
values (delete_order id) = id ∷ []
values (modify_order id side quantity price) = id ∷ side_byte side ∷ quantity ∷ to_uint32 price ∷ []
values (trade id quantity price) = id ∷ quantity ∷ to_uint32 price ∷ []
values (trade_summary symbol side quantity price) =
    symbol ∷ side_byte side ∷ quantity ∷ to_uint32 price ∷ []
values (snapshot_info symbol bids asks last_seq) = symbol ∷ bids ∷ asks ∷ last_seq ∷ []

-- The struct of a type, from the values of its fields.
abbrev pub order_of : List ℕ → Option Message
order_of (id ∷ symbol ∷ side ∷ quantity ∷ price ∷ flags ∷ []) =
    some (new_order id symbol (side_of side) quantity (to_int32 price) flags)
order_of _ = none

abbrev pub deletion_of : List ℕ → Option Message
deletion_of (id ∷ []) = some (delete_order id)
deletion_of _ = none

abbrev pub change_of : List ℕ → Option Message
change_of (id ∷ side ∷ quantity ∷ price ∷ []) =
    some (modify_order id (side_of side) quantity (to_int32 price))
change_of _ = none

abbrev pub trade_of : List ℕ → Option Message
trade_of (id ∷ quantity ∷ price ∷ []) = some (trade id quantity (to_int32 price))
trade_of _ = none

abbrev pub summary_of : List ℕ → Option Message
summary_of (symbol ∷ side ∷ quantity ∷ price ∷ []) =
    some (trade_summary symbol (side_of side) quantity (to_int32 price))
summary_of _ = none

abbrev pub info_of : List ℕ → Option Message
info_of (symbol ∷ bids ∷ asks ∷ last_seq ∷ []) = some (snapshot_info symbol bids asks last_seq)
info_of _ = none

unfoldable pub message_of : ℕ → List ℕ → Option Message
message_of t vs =
    if t == 0
    then some heartbeat
    else if t == 1
    then order_of vs
    else if t == 2
    then deletion_of vs
    else if t == 3
    then change_of vs
    else if t == 4
    then trade_of vs
    else if t == 5
    then summary_of vs
    else if t == 6
    then info_of vs
    else none

-- `reinterpret_cast<md_header*>`
abbrev pub header_of : List ℕ → Header
header_of (magic ∷ length ∷ seq_num ∷ timestamp ∷ msg_type ∷ []) = record {
  magic = magic;
  length = length;
  seq_num = seq_num;
  timestamp = timestamp;
  msg_type = msg_type;
}
header_of _ = record { magic = 0; length = 0; seq_num = 0; timestamp = 0; msg_type = 0 }

unfoldable pub read_header : List ℕ → Header
read_header buf = header_of (decode header_layout buf).0

-- `reinterpret_cast` to the struct of a type. The callers have checked that the buffer is long enough.
unfoldable pub read_message : ℕ → List ℕ → Option Message
unfolding message_of
read_message t buf = elim (layout_of t) [
  | none ↦ none
  | some ws ↦ message_of t (decode ws (decode header_layout buf).1).0
]

abbrev pub body_layout : Message → Layout
body_layout m = elim (layout_of (type_byte m)) [ none ↦ [] | some ws ↦ ws ]

-- `sizeof` of the struct of a message.
abbrev pub size_of : Message → ℕ
size_of m = size header_layout + size (body_layout m)

-- The bytes of a struct.
unfoldable pub write_struct : ℕ → ℕ → ℕ → Message → List ℕ
write_struct magic seq_num timestamp m =
    encode header_layout (magic ∷ size_of m ∷ seq_num ∷ timestamp ∷ type_byte m ∷ [])
    ++ encode (body_layout m) (values m)
