-- ===== src/Bots/MdClient/Recovery.antt =====
-- `MDClient::wait_for_snapshot` (bots/md_client.cpp): the live packets are kept until a snapshot of both
-- symbols is there, which then makes the books.
--
-- What a `recvfrom` gives is an argument of the turn of the loop that calls it. A counter is an `ssize_t`
-- that goes down by one for each order, and is an integer without bounds here.
pub mod Collect
use ndfex.Prelude.{
  ℕ, zero, suc, ◌+◌, ◌-◌, ◌^◌, Bool, true, false, not, ◌&&◌, List, [], ◌∷◌, ◌++◌, Option, none,
  some, ltb, leb, ◌==◌, if◌then◌else◌,
}
use ndfex.Prelude.Int.{ℤ, pos, negsuc, eqb_ℤ}
use ndfex.Prelude.Map.{Map, lookup, insert}
use ndfex.Prelude.Bytes.{length, drop, size}
use ndfex.Protocol.{Side, is_buy}
use ndfex.Feed.{
  snapshot_magic_number, Message, heartbeat, new_order, delete_order, modify_order, trade,
  trade_summary, snapshot_info, header_layout, read_header, read_message,
}
use ndfex.Bots.MdClient.{
  MdClient, SnapshotOrder, Summary, Ending, returned, recovers, overran, add_order, struct_size,
  process_message, prepend,
}

-- The client, and the variables of `wait_for_snapshot`.
pub record Recovery : Type 0 where
  pub client : MdClient
  pub symbol_to_bid_orders : Map ℤ
  pub symbol_to_ask_orders : Map ℤ

unfoldable pub begin_recovery : MdClient → Recovery
begin_recovery c = record {
  client = record c { snapshot_complete = insert 2 false (insert 1 false c.snapshot_complete) };
  symbol_to_bid_orders = (1, negsuc 0) ∷ (2, negsuc 0) ∷ [];
  symbol_to_ask_orders = (1, negsuc 0) ∷ (2, negsuc 0) ∷ [];
}

-- `get_first_live_seq_num`
unfoldable pub first_live_seq_num : MdClient → ℕ
first_live_seq_num c = elim c.live_buffer [
  | [] ↦ 2 ^ 32 - 1
  | x ∷ xs ↦ (read_header (x ∷ xs)).seq_num
]

abbrev pub count_of : ℕ → Map ℤ → ℤ
count_of symbol counts = elim (lookup symbol counts) [ none ↦ pos 0 | some n ↦ n ]

abbrev pub decrement : ℤ → ℤ
decrement (pos zero) = negsuc 0
decrement (pos (suc n)) = pos n
decrement (negsuc n) = negsuc (suc n)

abbrev pub is_complete : ℕ → MdClient → Bool
is_complete symbol c = elim (lookup symbol c.snapshot_complete) [ none ↦ false | some b ↦ b ]

abbrev pub snapshot_of : ℕ → MdClient → List SnapshotOrder
snapshot_of symbol c = elim (lookup symbol c.snapshot_buffer) [ none ↦ [] | some os ↦ os ]

-- `snapshot_complete[symbol] = true` where no order of the symbol is missing.
unfoldable pub check_complete : ℕ → Recovery → Recovery
check_complete symbol r =
    if eqb_ℤ (count_of symbol r.symbol_to_bid_orders) (pos 0)
      && eqb_ℤ (count_of symbol r.symbol_to_ask_orders) (pos 0)
    then record r {
      client = record (r.client) {
        snapshot_complete = insert symbol true r.client.snapshot_complete;
      };
    }
    else r

-- `SNAPSHOT_INFO` that is not skipped
unfoldable pub start_snapshot : ℕ → ℕ → ℕ → ℕ → Recovery → Recovery
unfolding check_complete
start_snapshot symbol bids asks last_seq r = check_complete symbol (record {
  client = record (r.client) {
    last_snapshot_seq_num = last_seq;
    snapshot_buffer = insert symbol [] r.client.snapshot_buffer;
  };
  symbol_to_bid_orders = insert symbol (pos bids) r.symbol_to_bid_orders;
  symbol_to_ask_orders = insert symbol (pos asks) r.symbol_to_ask_orders;
})

-- `NEW_ORDER`: one order less is missing.
unfoldable pub count_order : Side → ℕ → Recovery → Recovery
count_order side symbol r =
    if is_buy side
    then record r {
      symbol_to_bid_orders =
          insert symbol (decrement (count_of symbol r.symbol_to_bid_orders)) r.symbol_to_bid_orders;
    }
    else record r {
      symbol_to_ask_orders =
          insert symbol (decrement (count_of symbol r.symbol_to_ask_orders)) r.symbol_to_ask_orders;
    }

unfoldable pub keep_order : SnapshotOrder → Recovery → Recovery
keep_order o r = record r {
  client = record (r.client) {
    snapshot_buffer =
        insert o.symbol (snapshot_of o.symbol r.client ++ (o ∷ [])) r.client.snapshot_buffer;
  };
}

unfoldable pub snapshot_order : SnapshotOrder → Recovery → Recovery
unfolding count_order keep_order check_complete
snapshot_order o r = check_complete o.symbol (keep_order o (count_order o.side o.symbol r))

-- One message of a snapshot packet; none where the rest of the packet is skipped.
unfoldable pub on_snapshot : Message → Recovery → Option Recovery
unfolding start_snapshot snapshot_order first_live_seq_num
on_snapshot (snapshot_info symbol bids asks last_seq) r =
    if leb last_seq (first_live_seq_num r.client)
    then none
    else some (start_snapshot symbol bids asks last_seq r)
on_snapshot (new_order id symbol side quantity price flags) r = some (
    snapshot_order
      (record { order_id = id; symbol = symbol; side = side; quantity = quantity; price = price })
      r)
on_snapshot heartbeat r = some r
on_snapshot (delete_order id) r = some r
on_snapshot (modify_order id side quantity price) r = some r
on_snapshot (trade id quantity price) r = some r
on_snapshot (trade_summary symbol side quantity price) r = some r

-- What a turn of the loop comes to: it goes on, it throws, or it reads a struct that the packet cuts off,
-- whose end is what the buffer held before.
pub data Heard : Type 0 where
  heard : Recovery → Heard
  throws : Heard
  cut_off : Heard

-- The types whose struct is read.
abbrev pub is_read : ℕ → Bool
is_read t = if t == 6 then true else t == 1

-- The loop over the messages of a snapshot packet, with fuel; none where it runs out.
unfoldable pub parse_snapshot : ℕ → List ℕ → Recovery → Option Heard
unfolding on_snapshot
parse_snapshot zero buf r = none
parse_snapshot (suc fuel) [] r = some (heard r)
parse_snapshot (suc fuel) (x ∷ xs) r =
    let buf = x ∷ xs in
    let h = read_header buf in
    let rest = λ (r' : Recovery). parse_snapshot fuel (drop h.length buf) r' in
    if ltb (length buf) (size header_layout)
    then some throws
    else if not (h.magic == snapshot_magic_number)
    then some throws
    else if not (is_read h.msg_type)
    then rest r
    else if ltb (length buf) (struct_size h.msg_type)
    then some cut_off
    else elim (read_message h.msg_type buf) [
      | none ↦ some cut_off
      | some m ↦ elim (on_snapshot m r) [ none ↦ some (heard r) | some r' ↦ rest r' ]
    ]

-- `recvfrom`: nothing is there, it fails, or there is a packet.
pub data Received : Type 0 where
  nothing : Received
  failed : Received
  packet : List ℕ → Received

-- One turn of the `while` loop; the second `recvfrom` is reached if the first gives a packet.
unfoldable pub wait_turn : ℕ → Received → Received → Recovery → Option Heard
unfolding parse_snapshot
wait_turn fuel nothing snapshot r = some (heard r)
wait_turn fuel failed snapshot r = some throws
wait_turn fuel (packet live) snapshot r =
    let r' : Recovery = record r {
      client = record (r.client) { live_buffer = r.client.live_buffer ++ live };
    } in
    elim snapshot [
      | nothing ↦ some (heard r')
      | failed ↦ some throws
      | packet buf ↦ parse_snapshot fuel buf r'
    ]

-- The loop goes on until both symbols are complete.
abbrev pub is_waiting : Recovery → Bool
is_waiting r = not (is_complete 1 r.client && is_complete 2 r.client)

-- The orders of the snapshot make the books, and carry on the sequence numbers.
unfoldable pub add_orders : List SnapshotOrder → MdClient → MdClient
unfolding add_order
add_orders [] c = c
add_orders (o ∷ os) c = add_orders os (add_order o.order_id o.symbol o.side o.quantity o.price c)

unfoldable pub apply_snapshot : MdClient → MdClient
unfolding add_orders
apply_snapshot c =
    let c' = add_orders (snapshot_of 2 c) (add_orders (snapshot_of 1 c) c) in
    record c' { last_md_seq_num = c'.last_snapshot_seq_num }

-- `live_buffer.erase` of the first message, which must be there.
abbrev pub after_erasing : List Summary → ℕ → MdClient → (MdClient → Option Ending) → Option Ending
after_erasing outs n c k =
    if ltb (length c.live_buffer) n
    then some (overran c outs)
    else prepend outs (k (record c { live_buffer = drop n c.live_buffer }))

-- The loop over the live packets that were kept, with fuel. A nested recovery empties the buffer, and the
-- loop would read its message there.
unfoldable pub apply_live : ℕ → MdClient → Option Ending
unfolding process_message
apply_live zero c = none
apply_live (suc fuel) c = elim c.live_buffer [
  | [] ↦ some (returned c [])
  | x ∷ xs ↦
      let h = read_header (x ∷ xs) in
      let rest = λ (c' : MdClient). apply_live fuel c' in
      if ltb (length (x ∷ xs)) (size header_layout)
      then some (overran c [])
      else if leb h.seq_num c.last_snapshot_seq_num
      then after_erasing [] h.length c rest
      else elim (process_message fuel (x ∷ xs) c) [
        | none ↦ none
        | some (returned c' outs) ↦ after_erasing outs h.length c' rest
        | some (recovers c' outs) ↦ some (recovers c' outs)
        | some (overran c' outs) ↦ some (overran c' outs)
      ]
]
