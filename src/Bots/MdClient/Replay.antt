-- ===== src/Bots/MdClient/Replay.antt =====
-- `MDClient::process_message` (bots/md_client.cpp) at the packets of `MarketDataPublisher`
-- (matching_engine/md_mcast.cpp).
use ndfex.Prelude.{
  ℕ, zero, suc, ◌+◌, ◌≤◌, ◌<◌, ◌%◌, ◌^◌, ◌≡◌, refl, sym, ap, ◌∙◌, List, [], ◌∷◌, ◌++◌, Option, none,
  some, arith,
}
use ndfex.Prelude.Map.{lookup}
use ndfex.Prelude.Bytes.{length, drop, length-append, drop-append}
use ndfex.Feed.{
  magic_number, Header, Message, type_byte, size_of, write_struct, heartbeat, new_order,
  delete_order, modify_order, trade, trade_summary, snapshot_info, read_header, read_message,
}
use ndfex.Feed.Codec.{
  InRange, length-write_struct, size_of-bounds, read_header-write_struct, read_message-write_struct,
}
use ndfex.Publisher.Frames.{stream}
use ndfex.Bots.OrderBook
use ndfex.Bots.OrderBook.{order_trade}
use ndfex.Bots.MdClient.{
  MdClient, Ending, returned, Turn, stops, passes, turn_round, on_struct, struct_size, process_next,
  process_front, process_message, prepend, on_message, at_book, add_order, with_book, symbol_of,
  touch,
}
use ndfex.Bots.MdClient.Packets.{go_on, go_on-next, process_message-goes_on, empty_packet}

-- What messages do, one after the other, the first with sequence number `s`.
abbrev pub replay : ℕ → List Message → MdClient → Option Ending
replay s [] c = some (returned c [])
replay s (m ∷ ms) c = elim (on_message m (record c { last_md_seq_num = s })) [
  | stops c' ↦ some (returned c' [])
  | passes c' outs ↦ prepend outs (replay (suc s) ms c')
]

-- Every message fits its struct.
abbrev pub AllInRange : List Message → Type 0
AllInRange [] = Unit {0}
AllInRange (m ∷ ms) = InRange m × AllInRange ms

-- The client has seen the messages up to `s`.
abbrev SeenBy : ℕ → Turn → Type 0
SeenBy s (stops c) = Unit {0}
SeenBy s (passes c outs) = c.last_md_seq_num ≡ s

at_book-SeenBy :
    (symbol : ℕ) (f : OrderBook.OrderBook → OrderBook.OrderBook) (c : MdClient)
    → SeenBy c.last_md_seq_num (at_book symbol f c)
at_book-SeenBy symbol f c = go (lookup symbol c.symbol_to_order_book)
  where
    go :
        (r : Option OrderBook.OrderBook)
        → SeenBy c.last_md_seq_num
            (elim r [ none ↦ stops c | some b ↦ passes (with_book symbol (f b) c) [] ])
    go none = tt
    go (some b) = refl

on_message-SeenBy : (m : Message) (c : MdClient) → SeenBy c.last_md_seq_num (on_message m c)
unfolding on_message add_order
on_message-SeenBy heartbeat c = refl
on_message-SeenBy (new_order id symbol side quantity price flags) c = refl
on_message-SeenBy (delete_order id) c =
    at_book-SeenBy (symbol_of id c) (OrderBook.delete_order id) (touch id c)
on_message-SeenBy (modify_order id side quantity price) c =
    at_book-SeenBy (symbol_of id c) (OrderBook.modify_order id side quantity price) (touch id c)
on_message-SeenBy (trade id quantity price) c = go (lookup id c.order_to_symbol)
  where
    go :
        (r : Option ℕ)
        → SeenBy c.last_md_seq_num
            (elim r [ none ↦ stops c | some symbol ↦ at_book symbol (order_trade id quantity) c ])
    go none = tt
    go (some symbol) = at_book-SeenBy symbol (order_trade id quantity) c
on_message-SeenBy (trade_summary symbol side quantity price) c =
    go (lookup symbol c.symbol_to_order_book)
  where
    go :
        (r : Option OrderBook.OrderBook)
        → SeenBy c.last_md_seq_num (elim r [
          | none ↦ stops c
          | some b ↦ passes c (
              record { symbol = symbol; quantity = quantity; price = price; aggressor_side = side }
              ∷ [])
        ])
    go none = tt
    go (some b) = refl
on_message-SeenBy (snapshot_info symbol bids asks last_seq) c = tt

struct_size-type_byte : (m : Message) → struct_size (type_byte m) ≡ size_of m
struct_size-type_byte heartbeat = refl
struct_size-type_byte (new_order _ _ _ _ _ _) = refl
struct_size-type_byte (delete_order _) = refl
struct_size-type_byte (modify_order _ _ _ _) = refl
struct_size-type_byte (trade _ _ _) = refl
struct_size-type_byte (trade_summary _ _ _ _) = refl
struct_size-type_byte (snapshot_info _ _ _ _) = refl

process_front-next :
    (buf : List ℕ) (c : MdClient) (h : Header)
    → read_header buf ≡ h
    → 23 ≤ length buf
    → h.magic ≡ magic_number
    → h.seq_num ≡ suc c.last_md_seq_num
    → c.last_md_seq_num + 1 < 2 ^ 32
    → process_front buf c ≡ process_next h buf (record c { last_md_seq_num = h.seq_num })
unfolding process_front
process_front-next buf c h e long is_feed due small = ground (arith, e)

process_next-turns :
    (h : Header) (buf : List ℕ) (c : MdClient)
    → struct_size h.msg_type ≤ length buf
    → process_next h buf c ≡ turn_round h.length (on_struct (read_message h.msg_type buf) c)
unfolding process_next
process_next-turns h buf c enough = ground arith

module _ (nanotime : ℕ → ℕ) (clock : (k : ℕ) → nanotime k < 2 ^ 64) where
  -- The first message of a packet.
  module _ (t : ℕ) (m : Message) (in_range : InRange m) (rest : List ℕ) (fuel : ℕ) (c : MdClient)
      (small : c.last_md_seq_num + 1 < 2 ^ 32) where
    abbrev s : ℕ
    s = suc c.last_md_seq_num

    abbrev packet : List ℕ
    packet = write_struct magic_number (s % 2 ^ 32) (nanotime t) m ++ rest

    abbrev seen : MdClient
    seen = record c { last_md_seq_num = s }

    whole : length packet ≡ size_of m + length rest
    whole =
        length-append (write_struct magic_number (s % 2 ^ 32) (nanotime t) m) rest
        ∙ ap (λ n. n + length rest) (length-write_struct magic_number (s % 2 ^ 32) (nanotime t) m)

    abbrev header : Header
    header = record {
      magic = magic_number;
      length = size_of m;
      seq_num = s;
      timestamp = nanotime t;
      msg_type = type_byte m;
    }

    seq_is : s % 2 ^ 32 ≡ s
    seq_is = omega (arith, small)

    has_header : read_header packet ≡ header
    has_header =
        read_header-write_struct magic_number (s % 2 ^ 32) (nanotime t) m (omega arith)
          (omega arith) (clock t) in_range rest
        ∙ ap (λ k. record header { seq_num = k }) seq_is

    has_message : read_message (type_byte m) packet ≡ some m
    has_message =
        read_message-write_struct magic_number (s % 2 ^ 32) (nanotime t) m (omega arith)
          (omega arith) (clock t) in_range rest

    front : process_front packet c ≡ turn_round (size_of m) (on_message m seen)
    front =
        process_front-next packet c header has_header (omega (arith, whole, (size_of-bounds m).0))
          refl refl small
        ∙ process_next-turns header packet seen (omega (arith, whole, struct_size-type_byte m))
        ∙ ap (λ r. turn_round (size_of m) (on_struct r seen)) has_message

    rest_is : drop (size_of m) packet ≡ rest
    rest_is =
        ap (λ n. drop n packet) (sym (length-write_struct magic_number (s % 2 ^ 32) (nanotime t) m))
        ∙ drop-append (write_struct magic_number (s % 2 ^ 32) (nanotime t) m) rest

    pub process_message-first : process_message (suc fuel) packet c ≡ elim (on_message m seen) [
      | stops c' ↦ some (returned c' [])
      | passes c' outs ↦ prepend outs (process_message fuel rest c')
    ]
    process_message-first =
        process_message-goes_on fuel packet c (omega (arith, whole, (size_of-bounds m).0))
        ∙ ap (go_on fuel packet) front
        ∙ go (on_message m seen)
      where
        go :
            (r : Turn)
            → go_on fuel packet (turn_round (size_of m) r) ≡ elim r [
              | stops c' ↦ some (returned c' [])
              | passes c' outs ↦ prepend outs (process_message fuel rest c')
            ]
        go (stops c') = refl
        go (passes c' outs) =
            go_on-next fuel (size_of m) packet c' outs (omega (arith, whole))
            ∙ ap (λ b. prepend outs (process_message fuel b c')) rest_is

  -- At the bytes of messages in range, as the publisher numbers and stamps them (the clock gives
  -- 64-bit times), if the first is the next that the client expects, sequence numbers stay below
  -- 2 ^ 32, and there is more fuel than messages: `process_message` ends, and does what the
  -- messages do one after the other, up to the first that it turns away.
  pub process_message-replays :
      (fuel t : ℕ) (ms : List Message) (c : MdClient)
      → AllInRange ms
      → length ms < fuel
      → c.last_md_seq_num + length ms < 2 ^ 32
      → process_message fuel (stream nanotime (suc c.last_md_seq_num) t ms) c
        ≡ replay (suc c.last_md_seq_num) ms c
  unfolding stream length
  process_message-replays zero t ms c in_range enough small = absurd (omega (arith, enough))
  process_message-replays (suc fuel) t [] c in_range enough small = empty_packet fuel c
  process_message-replays (suc fuel) t (m ∷ ms) c (fits, fit) enough small =
      let n = suc c.last_md_seq_num in
      process_message-first t m fits (stream nanotime (suc n) (suc t) ms) fuel c
        (omega (arith, small))
      ∙ go n (on_message m (record c { last_md_seq_num = n }))
          (on_message-SeenBy m (record c { last_md_seq_num = n }))
          (λ c' e.
            process_message-replays fuel (suc t) ms c' fit (omega (arith, enough))
              (omega (arith, e, small)))
    where
      go :
          (n : ℕ) (r : Turn)
          → SeenBy n r
          → ((c' : MdClient)
              → c'.last_md_seq_num ≡ n
              → process_message fuel (stream nanotime (suc c'.last_md_seq_num) (suc t) ms) c'
                ≡ replay (suc c'.last_md_seq_num) ms c')
          → (elim r [
            | stops c' ↦ some (returned c' [])
            | passes c' outs ↦
                prepend outs (process_message fuel (stream nanotime (suc n) (suc t) ms) c')
          ])
            ≡ elim r [
              | stops c' ↦ some (returned c' [])
              | passes c' outs ↦ prepend outs (replay (suc n) ms c')
            ]
      go n (stops c') h later = refl
      go n (passes c' outs) h later =
          ap (λ k. prepend outs (process_message fuel (stream nanotime (suc k) (suc t) ms) c'))
            (sym h)
          ∙ ap (prepend outs) (later c' h)
          ∙ ap (λ k. prepend outs (replay (suc k) ms c')) h
