-- ===== src/Protocol.antt =====
-- The enumerations of market_data/md_protocol.H and order_entry/oe_protocol.H that the components
-- share. An enumeration that is read off the wire unchecked keeps its other byte values.
use ndfex.Prelude.{ℕ, ◌%◌, Bool, true, false, ◌==◌}

-- `md::SIDE`, a `uint8_t` that nothing between the socket and the ladder checks: `other` is any byte
-- but 1 and 2.
pub data Side : Type 0 where
  buy sell : Side
  other : ℕ → Side

-- `side == md::SIDE::BUY`
abbrev pub is_buy : Side → Bool
is_buy buy = true
is_buy sell = false
is_buy (other b) = false

-- `side == md::SIDE::SELL`
abbrev pub is_sell : Side → Bool
is_sell buy = false
is_sell sell = true
is_sell (other b) = false

-- `flags & ORDER_FLAGS::IOC`, bit 0.
abbrev pub is_ioc : ℕ → Bool
is_ioc flags = flags % 2 == 1

-- `oe::FILL_FLAGS`
pub data FillFlag : Type 0 where
  partial_fill closed : FillFlag

-- `a == b`
abbrev pub same_side : Side → Side → Bool
same_side buy b = is_buy b
same_side sell b = is_sell b
same_side (other x) buy = false
same_side (other x) sell = false
same_side (other x) (other y) = x == y

-- `oe::REJECT_REASON`, by its names
pub data RejectReason : Type 0 where
  no_reason unknown_symbol invalid_order duplicate_order_id unknown_order_id : RejectReason
  invalid_price invalid_quantity invalid_side unknown_session_id duplicate_login : RejectReason

-- `oe::MSG_TYPE`
pub data MsgType : Type 0 where
  new_order delete_order modify_order login login_response ack reject fill close error : MsgType
