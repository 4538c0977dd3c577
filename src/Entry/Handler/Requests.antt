-- ===== src/Entry/Handler/Requests.antt =====
-- `on_new_order` of `ClientHandler` (order_entry/oe_client_handler.cpp): when an order is granted, what the
-- engine is then asked for, and what is recorded.
use mathlib.Core.Path.{subst}
use ndfex.Prelude.{
  ◌≢◌, Option, ℕ, ◌≡◌, refl, inl, inr, Bool, true, false, ◌&&◌, List, [], ◌∷◌, none, some, arith,
  ◌==◌, if◌then◌else◌, Bool-cases, Option-cases,
}
use ndfex.Prelude.Int.{ℤ, to_uint32}
use ndfex.Prelude.Map.{lookup, insert, lookup-insert}
use ndfex.Protocol.{Side, MsgType, RejectReason, no_reason, unknown_session_id, duplicate_order_id}
use ndfex.Broker.{Payload}
use ndfex.Entry.Validator.{validate_new_order}
use ndfex.Entry.Validator.Checks.{Judges, IsTradable, validate_new_order-Judged}
use ndfex.Entry.Handler.{
  Handler, Header, OpenOrder, validate_session, order_reject, payload, orders_of, open_order,
  record_order, touch, on_new_order,
}
use ndfex.Entry.Handler.Maps.{IsPaired, record_order-IsPaired, touch-IsPaired}
use ndfex.Entry.Handler.Outcomes.{
  IsLoggedIn, validate_session-IsLoggedIn, validate_session-stranger, Handles, refuses, grants,
  touch-Keeps, order_reject-Rejects, refuses_at_once,
}

abbrev pub accepts : RejectReason → Bool
accepts no_reason = true
accepts _ = false

pub accepts-no_reason : (why : RejectReason) → accepts why ≡ true → why ≡ no_reason
accepts-no_reason why e = ground arith

pub accepts-fault : (why : RejectReason) → accepts why ≡ false → why ≢ no_reason
accepts-fault why bad e = ground (arith, bad, e)

module _ (now sock : ℕ) (h : Header) (id symbol : ℕ) (side : Side) (quantity : ℕ) (price : ℤ)
    (flags : ℕ) (s : Handler) where
  abbrev call : Option (Handler × List Payload)
  call = on_new_order now sock h id symbol side quantity price flags s

  abbrev request : Payload
  request = payload MsgType.new_order now symbol h.seq_num h.client_id side quantity price flags

  on_new_order-stranger :
      validate_session sock h s ≡ false → call ≡ some (s, order_reject h unknown_session_id id ∷ [])
  unfolding on_new_order
  on_new_order-stranger e = ground arith

  on_new_order-rejected :
      (why : RejectReason)
      → validate_session sock h s ≡ true
      → validate_new_order s.symbols id symbol side quantity price flags ≡ some why
      → accepts why ≡ false
      → call ≡ some (s, order_reject h why id ∷ [])
  unfolding on_new_order
  on_new_order-rejected why known e bad = ground arith

  on_new_order-duplicate :
      (o : OpenOrder)
      → validate_session sock h s ≡ true
      → validate_new_order s.symbols id symbol side quantity price flags ≡ some no_reason
      → open_order h.client_id id s ≡ some o
      → call ≡ some (touch h.client_id s, order_reject h duplicate_order_id id ∷ [])
  unfolding on_new_order
  on_new_order-duplicate o known e there = ground arith

  on_new_order-opens :
      validate_session sock h s ≡ true
      → validate_new_order s.symbols id symbol side quantity price flags ≡ some no_reason
      → open_order h.client_id id s ≡ none
      → call ≡ some (record_order now h id symbol s, request ∷ [])
  unfolding on_new_order
  on_new_order-opens known e missing = ground arith

  -- Why a new order may be refused.
  pub data RefusedOrder : RejectReason → Type 0 where
    stranger : ¬ IsLoggedIn sock h s → RefusedOrder unknown_session_id
    faulty :
        (why : RejectReason)
        → IsLoggedIn sock h s
        → Judges s.symbols symbol quantity price why
        → why ≢ no_reason
        → RefusedOrder why
    taken :
        (o : OpenOrder)
        → IsLoggedIn sock h s
        → Judges s.symbols symbol quantity price no_reason
        → open_order h.client_id id s ≡ some o
        → RefusedOrder duplicate_order_id

  -- The order is in order, the engine is asked for just this order under the exchange order id `now`, and
  -- it becomes one more open order of the client, to which `now` leads back.
  pub record GrantedOrder (s' : Handler) (p : Payload) : Type 0 where
    pub logged_in : IsLoggedIn sock h s
    pub admitted : Judges s.symbols symbol quantity price no_reason
    pub free : open_order h.client_id id s ≡ none
    pub asked_type : p.msg_type ≡ MsgType.new_order
    pub asked_id : p.exch_order_id ≡ now
    pub asked_symbol : p.symbol ≡ symbol
    pub asked_seq : p.client_seq ≡ h.seq_num
    pub asked_client : p.client_id ≡ h.client_id
    pub asked_side : p.side ≡ side
    pub asked_quantity : p.quantity ≡ quantity
    pub asked_price : p.price ≡ to_uint32 price
    pub asked_flags : p.flags ≡ flags
    pub opened :
        (client other : ℕ)
        → open_order client other s' ≡ (
            if (h.client_id == client) && (id == other)
            then some (record { exch_order_id = now; symbol = symbol })
            else open_order client other s)
    pub led_back :
        (exch_id : ℕ)
        → lookup exch_id s'.exch_to_client_orders ≡ (
            if now == exch_id
            then some (record { client_id = h.client_id; order_id = id })
            else lookup exch_id s.exch_to_client_orders)
    pub sessions : s'.sock_to_session_info ≡ s.sock_to_session_info
    pub sockets : s'.client_to_sock_fd ≡ s.client_to_sock_fd

  abbrev pub OrderOutcome : Option (Handler × List Payload) → Type 0
  OrderOutcome = Handles h id s RefusedOrder GrantedOrder

  record_order-opens :
      (client other : ℕ)
      → open_order client other (record_order now h id symbol s) ≡ (
          if (h.client_id == client) && (id == other)
          then some (record { exch_order_id = now; symbol = symbol })
          else open_order client other s)
  unfolding record_order
  record_order-opens client other =
      let new : OpenOrder = record { exch_order_id = now; symbol = symbol } in
      ground (
        arith,
        lookup-insert h.client_id client (insert id new (orders_of h.client_id s))
            s.client_to_open_orders,
        lookup-insert id other new (orders_of h.client_id s),
      )

  record_order-leads_back :
      (exch_id : ℕ)
      → lookup exch_id (record_order now h id symbol s).exch_to_client_orders ≡ (
          if now == exch_id
          then some (record { client_id = h.client_id; order_id = id })
          else lookup exch_id s.exch_to_client_orders)
  unfolding record_order
  record_order-leads_back exch_id =
      lookup-insert now exch_id (record { client_id = h.client_id; order_id = id })
        s.exch_to_client_orders

  record_order-sessions :
      ((record_order now h id symbol s).sock_to_session_info ≡ s.sock_to_session_info)
      × ((record_order now h id symbol s).client_to_sock_fd ≡ s.client_to_sock_fd)
  unfolding record_order
  record_order-sessions = (refl, refl)

  accepted :
      IsPaired s
      → lookup now s.exch_to_client_orders ≡ none
      → validate_session sock h s ≡ true
      → validate_new_order s.symbols id symbol side quantity price flags ≡ some no_reason
      → Judges s.symbols symbol quantity price no_reason
      → OrderOutcome call
  accepted paired fresh known e admitted = elim (Option-cases (open_order h.client_id id s)) [
    | inr (o, there) ↦ rw (on_new_order-duplicate o known e there) (
        refuses duplicate_order_id (touch h.client_id s) (order_reject h duplicate_order_id id)
          (taken o (validate_session-IsLoggedIn sock h s known) admitted there)
          (order_reject-Rejects h id duplicate_order_id) (touch-Keeps h.client_id s)
          (touch-IsPaired h.client_id s paired))
    | inl missing ↦ rw (on_new_order-opens known e missing) (
        grants (record_order now h id symbol s) request
          (record {
            logged_in = validate_session-IsLoggedIn sock h s known;
            admitted = admitted;
            free = missing;
            asked_type = refl;
            asked_id = refl;
            asked_symbol = refl;
            asked_seq = refl;
            asked_client = refl;
            asked_side = refl;
            asked_quantity = refl;
            asked_price = refl;
            asked_flags = refl;
            opened = record_order-opens;
            led_back = record_order-leads_back;
            sessions = record_order-sessions.0;
            sockets = record_order-sessions.1;
          })
          (record_order-IsPaired now h id symbol s paired fresh))
  ]

  -- Where the exchange order id of each open order leads back to its client and to the client's
  -- own id, the time is not yet an exchange order id, and no lot and no tick of a symbol is 0:
  -- `on_new_order` answers with one payload, and keeps the maps so paired. Either the client is
  -- logged in on the socket, the symbol, quantity and price are in order and the id is not open,
  -- and then the payload is a NEW_ORDER with just the order's fields under the time as its
  -- exchange order id, which becomes one more open order of the client, and the time leads back
  -- to it; or one of these fails, and then the payload is a REJECT under the client's own id for
  -- the reason that holds, and no session and no order is changed.
  pub on_new_order-Handles :
      IsPaired s
      → lookup now s.exch_to_client_orders ≡ none
      → IsTradable s.symbols
      → OrderOutcome call
  on_new_order-Handles paired fresh tradable = elim (Bool-cases (validate_session sock h s)) [
    | inr other ↦ rw (on_new_order-stranger other) (
        refuses_at_once h id s RefusedOrder GrantedOrder unknown_session_id
          (stranger (validate_session-stranger sock h s other)) paired)
    | inl known ↦
        let (why, (e, judged)) =
          validate_new_order-Judged s.symbols id symbol side quantity price flags tradable in
        elim (Bool-cases (accepts why)) [
          | inr bad ↦ rw (on_new_order-rejected why known e bad) (
              refuses_at_once h id s RefusedOrder GrantedOrder why
                (faulty why (validate_session-IsLoggedIn sock h s known) judged
                  (accepts-fault why bad))
                paired)
          | inl good ↦
              let fine = accepts-no_reason why good in
              accepted paired fresh known (rw fine at e)
                (subst (Judges s.symbols symbol quantity price) fine judged)
        ]
  ]
