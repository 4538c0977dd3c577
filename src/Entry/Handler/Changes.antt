-- ===== src/Entry/Handler/Changes.antt =====
-- `on_modify_order` and `on_delete_order` of `ClientHandler` (order_entry/oe_client_handler.cpp): when a change is
-- granted, and what the engine is then asked for.
use mathlib.Core.Path.{subst}
use ndfex.Prelude.{
  ◌≢◌, Option, ℕ, ◌≡◌, refl, inl, inr, true, false, List, [], ◌∷◌, none, some, arith, Bool-cases,
  Option-cases,
}
use ndfex.Prelude.Int.{ℤ, pos, to_uint32}
use ndfex.Prelude.Map.{lookup}
use ndfex.Protocol.{
  Side, buy, MsgType, RejectReason, no_reason, unknown_session_id, unknown_order_id,
}
use ndfex.Broker.{Payload}
use ndfex.Entry.Validator.{validate_new_order}
use ndfex.Entry.Validator.Checks.{Judges, IsTradable, validate_new_order-Judged}
use ndfex.Entry.Handler.{
  Handler, Header, OpenOrder, validate_session, order_reject, payload, open_order, on_modify_order,
  on_delete_order,
}
use ndfex.Entry.Handler.Maps.{IsPaired}
use ndfex.Entry.Handler.Outcomes.{
  IsLoggedIn, validate_session-IsLoggedIn, validate_session-stranger, Handles, grants,
  refuses_at_once,
}
use ndfex.Entry.Handler.Requests.{accepts, accepts-no_reason, accepts-fault}

module _ (sock : ℕ) (h : Header) (id : ℕ) (side : Side) (quantity : ℕ) (price : ℤ)
    (s : Handler) where
  abbrev change : Option (Handler × List Payload)
  change = on_modify_order sock h id side quantity price s

  abbrev change_request : OpenOrder → Payload
  change_request o =
      payload MsgType.modify_order o.exch_order_id o.symbol h.seq_num h.client_id side quantity
        price 0

  on_modify_order-stranger :
      validate_session sock h s ≡ false
      → change ≡ some (s, order_reject h unknown_session_id id ∷ [])
  unfolding on_modify_order
  on_modify_order-stranger e = ground arith

  on_modify_order-missing :
      validate_session sock h s ≡ true
      → open_order h.client_id id s ≡ none
      → change ≡ some (s, order_reject h unknown_order_id id ∷ [])
  unfolding on_modify_order
  on_modify_order-missing known e = ground arith

  on_modify_order-rejected :
      (o : OpenOrder) (why : RejectReason)
      → validate_session sock h s ≡ true
      → open_order h.client_id id s ≡ some o
      → validate_new_order s.symbols id o.symbol side quantity price 0 ≡ some why
      → accepts why ≡ false
      → change ≡ some (s, order_reject h why id ∷ [])
  unfolding on_modify_order
  on_modify_order-rejected o why known there e bad = ground arith

  on_modify_order-asks :
      (o : OpenOrder)
      → validate_session sock h s ≡ true
      → open_order h.client_id id s ≡ some o
      → validate_new_order s.symbols id o.symbol side quantity price 0 ≡ some no_reason
      → change ≡ some (s, change_request o ∷ [])
  unfolding on_modify_order
  on_modify_order-asks o known there e = ground arith

  -- Why a change may be refused.
  pub data RefusedChange : RejectReason → Type 0 where
    stranger : ¬ IsLoggedIn sock h s → RefusedChange unknown_session_id
    not_open :
        IsLoggedIn sock h s → open_order h.client_id id s ≡ none → RefusedChange unknown_order_id
    faulty :
        (o : OpenOrder) (why : RejectReason)
        → IsLoggedIn sock h s
        → open_order h.client_id id s ≡ some o
        → Judges s.symbols o.symbol quantity price why
        → why ≢ no_reason
        → RefusedChange why

  -- The change is in order, the engine is asked for just this change of the client's open order, to which
  -- the exchange order id leads back, and nothing is changed yet.
  pub record GrantedChange (s' : Handler) (p : Payload) : Type 0 where
    pub target : OpenOrder
    pub logged_in : IsLoggedIn sock h s
    pub is_open : open_order h.client_id id s ≡ some target
    pub admitted : Judges s.symbols target.symbol quantity price no_reason
    pub asked_type : p.msg_type ≡ MsgType.modify_order
    pub asked_id : p.exch_order_id ≡ target.exch_order_id
    pub asked_symbol : p.symbol ≡ target.symbol
    pub asked_seq : p.client_seq ≡ h.seq_num
    pub asked_client : p.client_id ≡ h.client_id
    pub asked_side : p.side ≡ side
    pub asked_quantity : p.quantity ≡ quantity
    pub asked_price : p.price ≡ to_uint32 price
    pub asked_flags : p.flags ≡ 0
    pub owned :
        lookup p.exch_order_id s.exch_to_client_orders
        ≡ some (record { client_id = h.client_id; order_id = id })
    pub unchanged : s' ≡ s

  abbrev pub ChangeOutcome : Option (Handler × List Payload) → Type 0
  ChangeOutcome = Handles h id s RefusedChange GrantedChange

  granted :
      (o : OpenOrder)
      → IsPaired s
      → validate_session sock h s ≡ true
      → open_order h.client_id id s ≡ some o
      → Judges s.symbols o.symbol quantity price no_reason
      → GrantedChange s (change_request o)
  granted o paired known there admitted = record {
    target = o;
    logged_in = validate_session-IsLoggedIn sock h s known;
    is_open = there;
    admitted = admitted;
    asked_type = refl;
    asked_id = refl;
    asked_symbol = refl;
    asked_seq = refl;
    asked_client = refl;
    asked_side = refl;
    asked_quantity = refl;
    asked_price = refl;
    asked_flags = refl;
    owned = paired h.client_id id o there;
    unchanged = refl;
  }

  modifies :
      (o : OpenOrder) (why : RejectReason)
      → IsPaired s
      → validate_session sock h s ≡ true
      → open_order h.client_id id s ≡ some o
      → validate_new_order s.symbols id o.symbol side quantity price 0 ≡ some why
      → Judges s.symbols o.symbol quantity price why
      → ChangeOutcome change
  modifies o why paired known there e judged = elim (Bool-cases (accepts why)) [
    | inr bad ↦ rw (on_modify_order-rejected o why known there e bad) (
        refuses_at_once h id s RefusedChange GrantedChange why
          (faulty o why (validate_session-IsLoggedIn sock h s known) there judged
            (accepts-fault why bad))
          paired)
    | inl good ↦
        let fine = accepts-no_reason why good in
        rw (on_modify_order-asks o known there (rw fine at e)) (
          grants s (change_request o)
            (granted o paired known there
              (subst (Judges s.symbols o.symbol quantity price) fine judged))
            paired)
  ]

  -- Where the exchange order id of each open order leads back to its client and to the client's
  -- own id, and no lot and no tick of a symbol is 0: `on_modify_order` answers with one payload,
  -- and keeps the maps so paired. Either the client is logged in on the socket, the id is open,
  -- and the quantity and the price are in order for the symbol of the open order, and then the
  -- payload is a MODIFY_ORDER with just these fields of the open order, to whose exchange order
  -- id the client and the id belong; or one of these fails, and then the payload is a REJECT
  -- under the client's own id for the reason that holds. No session and no order is changed.
  pub on_modify_order-Handles : IsPaired s → IsTradable s.symbols → ChangeOutcome change
  on_modify_order-Handles paired tradable = elim (Bool-cases (validate_session sock h s)) [
    | inr other ↦ rw (on_modify_order-stranger other) (
        refuses_at_once h id s RefusedChange GrantedChange unknown_session_id
          (stranger (validate_session-stranger sock h s other)) paired)
    | inl known ↦ elim (Option-cases (open_order h.client_id id s)) [
      | inl missing ↦ rw (on_modify_order-missing known missing) (
          refuses_at_once h id s RefusedChange GrantedChange unknown_order_id
            (not_open (validate_session-IsLoggedIn sock h s known) missing) paired)
      | inr (o, there) ↦
          let (why, (e, judged)) =
            validate_new_order-Judged s.symbols id o.symbol side quantity price 0 tradable in
          modifies o why paired known there e judged
    ]
  ]

module _ (sock : ℕ) (h : Header) (id : ℕ) (s : Handler) where
  on_delete_order-stranger :
      validate_session sock h s ≡ false
      → on_delete_order sock h id s ≡ some (s, order_reject h unknown_session_id id ∷ [])
  unfolding on_delete_order
  on_delete_order-stranger e = ground arith

  on_delete_order-missing :
      validate_session sock h s ≡ true
      → open_order h.client_id id s ≡ none
      → on_delete_order sock h id s ≡ some (s, order_reject h unknown_order_id id ∷ [])
  unfolding on_delete_order
  on_delete_order-missing known e = ground arith

  on_delete_order-open :
      (o : OpenOrder)
      → validate_session sock h s ≡ true
      → open_order h.client_id id s ≡ some o
      → on_delete_order sock h id s
        ≡ some (
          s,
          payload MsgType.delete_order o.exch_order_id o.symbol h.seq_num h.client_id buy 0
                (pos 0)
                0
              ∷ [],
        )
  unfolding on_delete_order
  on_delete_order-open o known e = ground arith

  -- Why a deletion may be refused.
  pub data RefusedDeletion : RejectReason → Type 0 where
    stranger : ¬ IsLoggedIn sock h s → RefusedDeletion unknown_session_id
    not_open :
        IsLoggedIn sock h s → open_order h.client_id id s ≡ none → RefusedDeletion unknown_order_id

  -- The engine is asked to delete the client's open order, to which the exchange order id leads back, and
  -- nothing is changed yet.
  pub record GrantedDeletion (s' : Handler) (p : Payload) : Type 0 where
    pub target : OpenOrder
    pub logged_in : IsLoggedIn sock h s
    pub is_open : open_order h.client_id id s ≡ some target
    pub asked_type : p.msg_type ≡ MsgType.delete_order
    pub asked_id : p.exch_order_id ≡ target.exch_order_id
    pub asked_symbol : p.symbol ≡ target.symbol
    pub asked_seq : p.client_seq ≡ h.seq_num
    pub asked_client : p.client_id ≡ h.client_id
    pub owned :
        lookup p.exch_order_id s.exch_to_client_orders
        ≡ some (record { client_id = h.client_id; order_id = id })
    pub unchanged : s' ≡ s

  abbrev pub DeletionOutcome : Option (Handler × List Payload) → Type 0
  DeletionOutcome = Handles h id s RefusedDeletion GrantedDeletion

  -- Where the exchange order id of each open order leads back to its client and to the client's
  -- own id: `on_delete_order` answers with one payload, and keeps the maps so paired. Either the
  -- client is logged in on the socket and the id is open, and then the payload is a DELETE_ORDER
  -- of the open order, to whose exchange order id the client and the id belong; or one of these
  -- fails, and then the payload is a REJECT under the client's own id for the reason that holds.
  -- No session and no order is changed.
  pub on_delete_order-Handles : IsPaired s → DeletionOutcome (on_delete_order sock h id s)
  on_delete_order-Handles paired = elim (Bool-cases (validate_session sock h s)) [
    | inr other ↦ rw (on_delete_order-stranger other) (
        refuses_at_once h id s RefusedDeletion GrantedDeletion unknown_session_id
          (stranger (validate_session-stranger sock h s other)) paired)
    | inl known ↦ elim (Option-cases (open_order h.client_id id s)) [
      | inl missing ↦ rw (on_delete_order-missing known missing) (
          refuses_at_once h id s RefusedDeletion GrantedDeletion unknown_order_id
            (not_open (validate_session-IsLoggedIn sock h s known) missing) paired)
      | inr (o, there) ↦ rw (on_delete_order-open o known there) (
          grants s _
            (record {
              target = o;
              logged_in = validate_session-IsLoggedIn sock h s known;
              is_open = there;
              asked_type = refl;
              asked_id = refl;
              asked_symbol = refl;
              asked_seq = refl;
              asked_client = refl;
              owned = paired h.client_id id o there;
              unchanged = refl;
            })
            paired)
    ]
  ]
