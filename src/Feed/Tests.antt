-- ===== src/Feed/Tests.antt =====
-- A message of market_data/md_protocol.H, on the wire and back.
use ndfex.Prelude.{◌≡◌, [], ◌∷◌, ◌++◌, some, arith}
use ndfex.Prelude.Int.{negsuc}
use ndfex.Protocol.{sell}
use ndfex.Feed.{magic_number, Message, new_order, read_message, read_header, write_struct}
use ndfex.Feed.Codec.{read_header-write_struct, read_message-write_struct}

abbrev order : Message
order = new_order 900 1 sell 10 (negsuc 4) 0

read_message-write_struct_example :
    read_message 1 (write_struct magic_number 3 1000 order ++ (7 ∷ [])) ≡ some order
read_message-write_struct_example =
    read_message-write_struct magic_number 3 1000 order (omega arith) (omega arith) (omega arith)
      (omega arith, omega arith, tt, omega arith, omega arith, omega arith) (7 ∷ [])

read_header-write_struct_example :
    read_header (write_struct magic_number 3 1000 order ++ (7 ∷ []))
    ≡ record { magic = magic_number; length = 45; seq_num = 3; timestamp = 1000; msg_type = 1 }
read_header-write_struct_example =
    read_header-write_struct magic_number 3 1000 order (omega arith) (omega arith) (omega arith)
      (omega arith, omega arith, tt, omega arith, omega arith, omega arith) (7 ∷ [])
