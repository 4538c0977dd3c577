-- ===== src/Entry/Handler/Outcomes.antt =====
-- What a request of a client comes to (order_entry/oe_client_handler.cpp): it is refused, with a rejection for
-- the client, or granted, with a request to the engine.
use ndfex.Prelude.{ℕ, ◌≡◌, refl, true, false, [], ◌∷◌, some, arith, inl, inr, Option-cases}
use ndfex.Prelude.Map.{lookup, lookup-insert}
use ndfex.Protocol.{MsgType, RejectReason}
use ndfex.Broker.{Payload}
use ndfex.Entry.Handler.{
  Handler, Header, SessionInfo, Run, reason_byte, validate_session, order_reject, orders_of,
  open_order, touch,
}
use ndfex.Entry.Handler.Maps.{IsPaired}

-- The socket has the session and the client that the header names.
abbrev pub IsLoggedIn : ℕ → Header → Handler → Type 0
IsLoggedIn sock h s =
    (i : SessionInfo) × (lookup sock s.sock_to_session_info ≡ some i)
    × (i.session_id ≡ h.session_id)
    × (i.client_id ≡ h.client_id)

pub validate_session-IsLoggedIn :
    (sock : ℕ) (h : Header) (s : Handler) → validate_session sock h s ≡ true → IsLoggedIn sock h s
validate_session-IsLoggedIn sock h s e = elim (Option-cases (lookup sock s.sock_to_session_info)) [
  | inl missing ↦ absurd (ground (arith, e, missing))
  | inr (i, found) ↦ (i, found, ground (arith, e, found), ground (arith, e, found))
]

pub validate_session-stranger :
    (sock : ℕ) (h : Header) (s : Handler)
    → validate_session sock h s ≡ false
    → ¬ IsLoggedIn sock h s
validate_session-stranger sock h s e (i, found, same_session, same_client) =
    ground (arith, e, found, same_session, same_client)

-- The same sessions and the same orders.
pub record Keeps (s s' : Handler) : Type 0 where
  pub orders : (client id : ℕ) → open_order client id s' ≡ open_order client id s
  pub exchange : s'.exch_to_client_orders ≡ s.exch_to_client_orders
  pub sessions : s'.sock_to_session_info ≡ s.sock_to_session_info
  pub sockets : s'.client_to_sock_fd ≡ s.client_to_sock_fd

-- A rejection of the request under the client's own id, for a reason.
pub record Rejects (h : Header) (id : ℕ) (why : RejectReason) (p : Payload) : Type 0 where
  pub msg_type : p.msg_type ≡ MsgType.reject
  pub order_id : p.exch_order_id ≡ id
  pub client_seq : p.client_seq ≡ h.seq_num
  pub client_id : p.client_id ≡ h.client_id
  pub reason : p.flags ≡ reason_byte why

-- A request is refused for a reason that holds, and nothing is changed, or it is granted. One payload goes
-- to the engine, and the maps of orders are in pairs.
pub data Handles (h : Header) (id : ℕ) (s : Handler) (Refused : RejectReason → Type 0)
    (Granted : Handler → Payload → Type 0) : Run → Type 0 where
  refuses :
      (why : RejectReason) (s' : Handler) (p : Payload)
      → Refused why
      → Rejects h id why p
      → Keeps s s'
      → IsPaired s'
      → Handles h id s Refused Granted (some (s', p ∷ []))
  grants :
      (s' : Handler) (p : Payload)
      → Granted s' p
      → IsPaired s'
      → Handles h id s Refused Granted (some (s', p ∷ []))

same-Keeps : (s : Handler) → Keeps s s
same-Keeps s = record {
  orders = λ client id. refl;
  exchange = refl;
  sessions = refl;
  sockets = refl;
}

pub touch-Keeps : (client : ℕ) (s : Handler) → Keeps s (touch client s)
touch-Keeps client s = record {
  orders = λ other id.
      ground (arith, lookup-insert client other (orders_of client s) s.client_to_open_orders);
  exchange = refl;
  sessions = refl;
  sockets = refl;
}

pub order_reject-Rejects :
    (h : Header) (id : ℕ) (why : RejectReason) → Rejects h id why (order_reject h why id)
order_reject-Rejects h id why = record {
  msg_type = refl;
  order_id = refl;
  client_seq = refl;
  client_id = refl;
  reason = refl;
}

-- The handler stays as it is.
pub refuses_at_once :
    (h : Header) (id : ℕ) (s : Handler) (Refused : RejectReason → Type 0)
    (Granted : Handler → Payload → Type 0) (why : RejectReason)
    → Refused why
    → IsPaired s
    → Handles h id s Refused Granted (some (s, order_reject h why id ∷ []))
refuses_at_once h id s Refused Granted why reason paired =
    refuses why s (order_reject h why id) reason (order_reject-Rejects h id why) (same-Keeps s)
      paired
