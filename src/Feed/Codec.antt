-- ===== src/Feed/Codec.antt =====
-- Structs of market_data/md_protocol.H come off the wire as they were put on it.
use mathlib.Core.List.{append_assoc}
use ndfex.Prelude.{
  ℕ, ◌≤◌, ◌^◌, ◌<◌, ◌≡◌, ◌≢◌, refl, ap, ◌∙◌, List, [], ◌∷◌, ◌++◌, none, some, arith,
}
use ndfex.Prelude.Int.{ℤ, pos, negsuc, IsInt32, to_uint32, to_int32-to_uint32}
use ndfex.Prelude.Bytes.{
  Layout, Fits, AllFit, encode, decode, decode-encode, length, length-append, length-encode,
}
use ndfex.Protocol.{Side, buy, sell, other}
use ndfex.Feed.{
  header_layout, Message, heartbeat, new_order, delete_order, modify_order, trade, trade_summary,
  snapshot_info, type_byte, layout_of, body_layout, side_byte, side_of, values, message_of,
  header_of, read_header, read_message, size_of, write_struct,
}

-- A byte that `Side` keeps apart from BUY and SELL is another one.
abbrev pub IsSideByte : Side → Type 0
IsSideByte buy = Unit {0}
IsSideByte sell = Unit {0}
IsSideByte (other b) = (b ≢ 1) × (b ≢ 2) × (b < 256)

side_of-side_byte : (side : Side) → IsSideByte side → side_of (side_byte side) ≡ side
side_of-side_byte buy h = refl
side_of-side_byte sell h = refl
side_of-side_byte (other b) (h, h', h'') = ground arith

-- Every field of the message is in the range of its type.
abbrev pub InRange : Message → Type 0
InRange heartbeat = Unit {0}
InRange (new_order id symbol side quantity price flags) =
    (id < 2 ^ 64)
    × (symbol < 2 ^ 32)
    × IsSideByte side
    × (quantity < 2 ^ 32)
    × IsInt32 price
    × (flags < 256)
InRange (delete_order id) = id < 2 ^ 64
InRange (modify_order id side quantity price) =
    (id < 2 ^ 64) × IsSideByte side × (quantity < 2 ^ 32) × IsInt32 price
InRange (trade id quantity price) = (id < 2 ^ 64) × (quantity < 2 ^ 32) × IsInt32 price
InRange (trade_summary symbol side quantity price) =
    (symbol < 2 ^ 32) × IsSideByte side × (quantity < 2 ^ 32) × IsInt32 price
InRange (snapshot_info symbol bids asks last_seq) =
    (symbol < 2 ^ 32) × (bids < 2 ^ 32) × (asks < 2 ^ 32) × (last_seq < 2 ^ 32)

Fits-4 : (n : ℕ) → n < 2 ^ 32 → Fits 4 n
Fits-4 n h = omega arith

Fits-8 : (n : ℕ) → n < 2 ^ 64 → Fits 8 n
Fits-8 n h = omega arith

Fits-1 : (n : ℕ) → n < 256 → Fits 1 n
Fits-1 n h = omega arith

Fits-to_uint32 : (p : ℤ) → Fits 4 (to_uint32 p)
unfolding to_uint32
Fits-to_uint32 (pos n) = omega arith
Fits-to_uint32 (negsuc n) = omega arith

Fits-side_byte : (side : Side) → IsSideByte side → Fits 1 (side_byte side)
Fits-side_byte buy h = refl
Fits-side_byte sell h = refl
Fits-side_byte (other b) (h, h', h'') = omega arith

values-AllFit : (m : Message) → InRange m → AllFit (body_layout m) (values m)
values-AllFit heartbeat h = tt
values-AllFit (new_order id symbol side quantity price flags) (a, b, c, d, e, f) = (
  Fits-8 id a,
  (
    Fits-4 symbol b,
    (Fits-side_byte side c, (Fits-4 quantity d, (Fits-to_uint32 price, (Fits-1 flags f, tt)))),
  ),
)
values-AllFit (delete_order id) h = (Fits-8 id h, tt)
values-AllFit (modify_order id side quantity price) (a, c, d, e) =
    (Fits-8 id a, (Fits-side_byte side c, (Fits-4 quantity d, (Fits-to_uint32 price, tt))))
values-AllFit (trade id quantity price) (a, d, e) =
    (Fits-8 id a, (Fits-4 quantity d, (Fits-to_uint32 price, tt)))
values-AllFit (trade_summary symbol side quantity price) (b, c, d, e) =
    (Fits-4 symbol b, (Fits-side_byte side c, (Fits-4 quantity d, (Fits-to_uint32 price, tt))))
values-AllFit (snapshot_info symbol bids asks last_seq) (a, b, c, d) =
    (Fits-4 symbol a, (Fits-4 bids b, (Fits-4 asks c, (Fits-4 last_seq d, tt))))

message_of-values : (m : Message) → InRange m → message_of (type_byte m) (values m) ≡ some m
unfolding message_of
message_of-values heartbeat h = refl
message_of-values (new_order id symbol side quantity price flags) (a, b, c, d, e, f) =
    rw (side_of-side_byte side c, to_int32-to_uint32 price e) refl
message_of-values (delete_order id) h = refl
message_of-values (modify_order id side quantity price) (a, c, d, e) =
    rw (side_of-side_byte side c, to_int32-to_uint32 price e) refl
message_of-values (trade id quantity price) (a, d, e) = rw (to_int32-to_uint32 price e) refl
message_of-values (trade_summary symbol side quantity price) (b, c, d, e) =
    rw (side_of-side_byte side c, to_int32-to_uint32 price e) refl
message_of-values (snapshot_info symbol bids asks last_seq) h = refl

length-values : (m : Message) → length (values m) ≡ length (body_layout m)
unfolding length
length-values heartbeat = refl
length-values (new_order _ _ _ _ _ _) = refl
length-values (delete_order _) = refl
length-values (modify_order _ _ _ _) = refl
length-values (trade _ _ _) = refl
length-values (trade_summary _ _ _ _) = refl
length-values (snapshot_info _ _ _ _) = refl

pub length-write_struct :
    (magic seq_num timestamp : ℕ) (m : Message)
    → length (write_struct magic seq_num timestamp m) ≡ size_of m
unfolding write_struct length
length-write_struct magic seq_num timestamp m =
    let header = magic ∷ size_of m ∷ seq_num ∷ timestamp ∷ type_byte m ∷ [] in
    omega (
      arith,
      length-append (encode header_layout header) (encode (body_layout m) (values m)),
      length-encode header_layout header refl,
      length-encode (body_layout m) (values m) (length-values m),
    )

pub size_of-bounds : (m : Message) → (23 ≤ size_of m) × (size_of m ≤ 45)
size_of-bounds heartbeat = (omega arith, omega arith)
size_of-bounds (new_order _ _ _ _ _ _) = (omega arith, omega arith)
size_of-bounds (delete_order _) = (omega arith, omega arith)
size_of-bounds (modify_order _ _ _ _) = (omega arith, omega arith)
size_of-bounds (trade _ _ _) = (omega arith, omega arith)
size_of-bounds (trade_summary _ _ _ _) = (omega arith, omega arith)
size_of-bounds (snapshot_info _ _ _ _) = (omega arith, omega arith)

module _ (magic seq_num timestamp : ℕ) (m : Message) (magic_fits : magic < 2 ^ 64)
    (seq_fits : seq_num < 2 ^ 32) (time_fits : timestamp < 2 ^ 64) (in_range : InRange m)
    (rest : List ℕ) where
  abbrev header_values : List ℕ
  header_values = magic ∷ size_of m ∷ seq_num ∷ timestamp ∷ type_byte m ∷ []

  small_header :
      (length t : ℕ)
      → Fits 2 length
      → Fits 1 t
      → AllFit header_layout (magic ∷ length ∷ seq_num ∷ timestamp ∷ t ∷ [])
  small_header length t length_fits t_fits = (
    Fits-8 magic magic_fits,
    (length_fits, (Fits-4 seq_num seq_fits, (Fits-8 timestamp time_fits, (t_fits, tt)))),
  )

  header-AllFit : AllFit header_layout header_values
  header-AllFit = go m
    where
      go :
          (k : Message)
          → AllFit header_layout (magic ∷ size_of k ∷ seq_num ∷ timestamp ∷ type_byte k ∷ [])
      go heartbeat = small_header 23 0 refl refl
      go (new_order _ _ _ _ _ _) = small_header 45 1 refl refl
      go (delete_order _) = small_header 31 2 refl refl
      go (modify_order _ _ _ _) = small_header 40 3 refl refl
      go (trade _ _ _) = small_header 39 4 refl refl
      go (trade_summary _ _ _ _) = small_header 36 5 refl refl
      go (snapshot_info _ _ _ _) = small_header 39 6 refl refl

  abbrev buffer : List ℕ
  buffer = write_struct magic seq_num timestamp m ++ rest

  decode-buffer :
      decode header_layout buffer ≡ (header_values, encode (body_layout m) (values m) ++ rest)
  unfolding write_struct
  decode-buffer =
      ap (decode header_layout)
        (append_assoc (encode header_layout header_values) (encode (body_layout m) (values m)) rest)
      ∙ decode-encode header_layout header_values (encode (body_layout m) (values m) ++ rest)
          header-AllFit

  -- With a 64-bit magic number and time, a 32-bit sequence number and fields in range, the header
  -- of the bytes of a message is read with its magic number, its sequence number, its time, its
  -- type, and the size of its struct as the length.
  pub read_header-write_struct : read_header buffer ≡ record {
    magic = magic;
    length = size_of m;
    seq_num = seq_num;
    timestamp = timestamp;
    msg_type = type_byte m;
  }
  unfolding read_header
  read_header-write_struct = ap (λ d. header_of d.0) decode-buffer

  decode-body : decode (body_layout m) (decode header_layout buffer).1 ≡ (values m, rest)
  decode-body =
      ap (λ d. decode (body_layout m) d.1) decode-buffer
      ∙ decode-encode (body_layout m) (values m) rest (values-AllFit m in_range)

  layout_of-type_byte : layout_of (type_byte m) ≡ some (body_layout m)
  layout_of-type_byte = go m
    where
      go : (k : Message) → layout_of (type_byte k) ≡ some (body_layout k)
      go heartbeat = refl
      go (new_order _ _ _ _ _ _) = refl
      go (delete_order _) = refl
      go (modify_order _ _ _ _) = refl
      go (trade _ _ _) = refl
      go (trade_summary _ _ _ _) = refl
      go (snapshot_info _ _ _ _) = refl

  read_message-laid :
      (ws : Layout)
      → layout_of (type_byte m) ≡ some ws
      → read_message (type_byte m) buffer
        ≡ message_of (type_byte m) (decode ws (decode header_layout buffer).1).0
  unfolding read_message
  read_message-laid ws e =
      ap
        (λ o. elim o [
          | none ↦ none
          | some ls ↦ message_of (type_byte m) (decode ls (decode header_layout buffer).1).0
        ])
        e

  -- With a 64-bit magic number and time, a 32-bit sequence number and fields in range, the bytes
  -- of a message, whatever is behind them, are read as that message.
  pub read_message-write_struct : read_message (type_byte m) buffer ≡ some m
  read_message-write_struct =
      read_message-laid (body_layout m) layout_of-type_byte
      ∙ ap (λ d. message_of (type_byte m) d.0) decode-body
      ∙ message_of-values m in_range
