-- ===== src/Entry/Handler/Answers/Orders.antt =====
-- The maps of orders when `ClientHandler` (order_entry/oe_client_handler.cpp) passes answers on.
use ndfex.Prelude.{
  ℕ, ◌≡◌, refl, ap, ◌∙◌, inl, inr, Bool, true, false, ◌&&◌, List, [], ◌∷◌, ◌++◌, none, some, arith,
  ◌==◌, Bool-cases, Option-cases,
}
use ndfex.Prelude.Int.{to_int32}
use ndfex.Prelude.Map.{lookup, insert, erase, lookup-insert, lookup-erase}
use ndfex.Protocol.{MsgType}
use ndfex.Broker.{Payload}
use ndfex.Entry.Handler.{Handler, ExchOrder, OpenOrder, open_order, orders_of, on_socket_closed}
use ndfex.Entry.Handler.Maps.{IsPaired, on_socket_closed-IsPaired}
use ndfex.Entry.Handler.Sockets.{
  Sent, Output, message, Reply, Server, Call, reply_size, send_all, update_last_seq_num,
  close_socket, write_msg, or_close, write_msg_to_client, order_ack, order_reject, order_fill,
  order_closed,
}
use ndfex.Entry.Handler.Answers.{
  forget_order, and_forget, is_closing, is_reject, answer_owner, on_payload, followed_by, process,
}

-- A call ends, keeps the orders in pairs, and has not touched the ids of the exchange.
record Keeps (s : Server) (r : Call) : Type 0 where
  after : Server
  outs : List Output
  runs : r ≡ some (after, outs)
  paired : IsPaired after.handler
  same : after.handler.exch_to_client_orders ≡ s.handler.exch_to_client_orders

-- A call ends, and keeps the orders in pairs.
pub record Settles (r : Call) : Type 0 where
  pub after : Server
  pub outs : List Output
  pub runs : r ≡ some (after, outs)
  pub paired : IsPaired after.handler

on_socket_closed-same :
    (sock : ℕ) (h : Handler)
    → (on_socket_closed sock h).0.exch_to_client_orders ≡ h.exch_to_client_orders
unfolding on_socket_closed
on_socket_closed-same sock h = elim (Option-cases (lookup sock h.sock_to_session_info)) [
  | inl missing ↦ rw (missing, on_socket_closed) refl
  | inr (i, found) ↦ rw (found, on_socket_closed) refl
]

open_order-erase :
    (client client' id id' : ℕ) (h : Handler) (o : OpenOrder)
    → lookup id'
        (elim (lookup client'
          (insert client (erase id (orders_of client h)) h.client_to_open_orders)) [
            | none ↦ []
            | some m ↦ m
          ])
      ≡ some o
    → (open_order client' id' h ≡ some o) × (((client == client') && (id == id')) ≡ false)
open_order-erase client client' id id' h o e = elim (Bool-cases (client == client')) [
  | inl same_client ↦ ground (
    arith,
    e,
    lookup-insert client client' (erase id (orders_of client h)) h.client_to_open_orders,
    lookup-erase id id' (orders_of client h),
  )
  | inr other_client ↦ ground (
    arith,
    e,
    lookup-insert client client' (erase id (orders_of client h)) h.client_to_open_orders,
  )
]

forget_order-IsPaired :
    (exch_id : ℕ) (o : ExchOrder) (h : Handler)
    → lookup exch_id h.exch_to_client_orders ≡ some o
    → IsPaired h
    → IsPaired (forget_order exch_id o h)
unfolding forget_order
forget_order-IsPaired exch_id o h owned p client id x e =
    let (held, other) = open_order-erase o.client_id client o.order_id id h x e in
    let back = p client id x held in
    elim (Bool-cases (exch_id == x.exch_order_id)) [
      | inr other_id ↦
          lookup-erase exch_id x.exch_order_id h.exch_to_client_orders ∙ (rw other_id back)
      | inl same_id ↦ absurd (ground (arith, owned, back, other))
    ]

close_socket-Keeps :
    (sock : ℕ) (s : Server) (outs : List Output)
    → IsPaired s.handler
    → Keeps s (some ((close_socket sock s).0, outs ++ (close_socket sock s).1))
unfolding close_socket
close_socket-Keeps sock s outs p = record {
  after = (close_socket sock s).0;
  outs = outs ++ (close_socket sock s).1;
  runs = refl;
  paired = on_socket_closed-IsPaired sock s.handler p;
  same = on_socket_closed-same sock s.handler;
}

update_last_seq_num-same :
    (sock seq : ℕ) (s : Server)
    → ((update_last_seq_num sock seq s).handler.client_to_open_orders
        ≡ s.handler.client_to_open_orders)
      × ((update_last_seq_num sock seq s).handler.exch_to_client_orders
          ≡ s.handler.exch_to_client_orders)
unfolding update_last_seq_num
update_last_seq_num-same sock seq s =
    elim (Option-cases (lookup sock s.handler.sock_to_session_info)) [
      | inl missing ↦ rw (missing, update_last_seq_num) (refl, refl)
      | inr (i, found) ↦ rw (found, update_last_seq_num) (refl, refl)
    ]

-- The same maps of orders are in pairs.
IsPaired-same :
    (h h' : Handler)
    → h'.client_to_open_orders ≡ h.client_to_open_orders
    → h'.exch_to_client_orders ≡ h.exch_to_client_orders
    → IsPaired h
    → IsPaired h'
IsPaired-same h h' e e' p client id o x = ground (arith, e, e', x, p client id o)

module _ (replies : ℕ → List (Sent × ℕ))
    (answers : (n : ℕ) (m : Reply)
      → (done : Bool) × (send_all (reply_size m) 0 (replies n) ≡ some done)) where
  or_close-Keeps :
      (sock : ℕ) (s s' : Server) (outs : List Output) (done : Bool)
      → s'.handler.exch_to_client_orders ≡ s.handler.exch_to_client_orders
      → IsPaired s'.handler
      → Keeps s (or_close replies sock (some (s', outs, done)))
  or_close-Keeps sock s s' outs true e p = record {
    after = s';
    outs = outs;
    runs = refl;
    paired = p;
    same = e;
  }
  or_close-Keeps sock s s' outs false e p =
      let k = close_socket-Keeps sock s' outs p in
      record { after = k.after; outs = k.outs; runs = k.runs; paired = k.paired; same = k.same ∙ e }

  write_msg-Keeps :
      (sock : ℕ) (m : Reply) (s : Server)
      → IsPaired s.handler
      → Keeps s (or_close replies sock (write_msg replies sock m s))
  unfolding write_msg
  write_msg-Keeps sock m s p = elim (Option-cases (lookup sock s.handler.sock_to_session_info)) [
    | inl missing ↦ rw (missing, write_msg) (close_socket-Keeps sock s [] p)
    | inr (i, found) ↦
        let (done, sends) = answers s.begun m in
        rw (found, write_msg, sends)
          (or_close-Keeps sock s _
            (message sock
                (record {
                  seq_num = i.exch_seq_num;
                  last_seq_num = i.last_seq_num;
                  client_id = i.client_id;
                })
                m
              ∷ [])
            done refl p)
  ]

  write_msg_to_client-Keeps :
      (client seq : ℕ) (m : Reply) (s : Server)
      → IsPaired s.handler
      → Keeps s (write_msg_to_client replies client seq m s)
  unfolding write_msg_to_client
  write_msg_to_client-Keeps client seq m s p =
      elim (Option-cases (lookup client s.handler.client_to_sock_fd)) [
        | inl missing ↦
            rw (missing, write_msg_to_client)
              (record { after = s; outs = []; runs = refl; paired = p; same = refl })
        | inr (sock, found) ↦
            let s' = update_last_seq_num sock seq s in
            let (e, e') = update_last_seq_num-same sock seq s in
            let k = write_msg-Keeps sock m s' (IsPaired-same s.handler s'.handler e e' p) in
            rw (found, write_msg_to_client)
              (record {
                after = k.after;
                outs = k.outs;
                runs = k.runs;
                paired = k.paired;
                same = k.same ∙ e';
              })
      ]

  kept : (s : Server) (r : Call) → Keeps s r → Settles r
  kept s r k = record { after = k.after; outs = k.outs; runs = k.runs; paired = k.paired }

  -- The order is closed after the message.
  and_forget-Settles :
      (exch_id : ℕ) (o : ExchOrder) (s : Server) (r : Call)
      → lookup exch_id s.handler.exch_to_client_orders ≡ some o
      → Keeps s r
      → Settles (and_forget exch_id o r)
  and_forget-Settles exch_id o s r owned k = record {
    after = record (k.after) { handler = forget_order exch_id o k.after.handler };
    outs = k.outs;
    runs = ap (and_forget exch_id o) k.runs;
    paired =
        forget_order-IsPaired exch_id o k.after.handler (ap (lookup exch_id) k.same ∙ owned)
          k.paired;
  }

  unanswered : (s : Server) → IsPaired s.handler → Keeps s (some (s, []))
  unanswered s p = record { after = s; outs = []; runs = refl; paired = p; same = refl }

  answer_owner-Settles :
      (t : MsgType) (p : Payload) (o : ExchOrder) (s : Server)
      → lookup p.exch_order_id s.handler.exch_to_client_orders ≡ some o
      → IsPaired s.handler
      → Settles (answer_owner replies t p o s)
  unfolding answer_owner
  answer_owner-Settles MsgType.ack p o s owned paired = kept s _ (
      write_msg_to_client-Keeps o.client_id p.client_seq
        (order_ack o.order_id p.exch_order_id p.quantity (to_int32 p.price)) s paired)
  answer_owner-Settles MsgType.fill p o s owned paired =
      let m = order_fill o.order_id p.quantity (to_int32 p.price) p.flags in
      let k = write_msg_to_client-Keeps o.client_id p.client_seq m s paired in
      elim (Bool-cases (is_closing p.flags)) [
        | inl closing ↦ rw closing (and_forget-Settles p.exch_order_id o s _ owned k)
        | inr partial ↦ rw partial (kept s _ k)
      ]
  answer_owner-Settles MsgType.close p o s owned paired =
      and_forget-Settles p.exch_order_id o s _ owned
        (write_msg_to_client-Keeps o.client_id p.client_seq (order_closed o.order_id) s paired)
  answer_owner-Settles MsgType.new_order p o s owned paired = kept s _ (unanswered s paired)
  answer_owner-Settles MsgType.delete_order p o s owned paired = kept s _ (unanswered s paired)
  answer_owner-Settles MsgType.modify_order p o s owned paired = kept s _ (unanswered s paired)
  answer_owner-Settles MsgType.login p o s owned paired = kept s _ (unanswered s paired)
  answer_owner-Settles MsgType.login_response p o s owned paired = kept s _ (unanswered s paired)
  answer_owner-Settles MsgType.reject p o s owned paired = kept s _ (unanswered s paired)
  answer_owner-Settles MsgType.error p o s owned paired = kept s _ (unanswered s paired)

  on_payload-Settles :
      (p : Payload) (s : Server) → IsPaired s.handler → Settles (on_payload replies p s)
  unfolding on_payload
  on_payload-Settles p s paired = elim (Bool-cases (is_reject p.msg_type)) [
    | inl rejected ↦
        rw (rejected, on_payload)
          (kept s _ (
            write_msg_to_client-Keeps p.client_id p.client_seq
              (order_reject p.exch_order_id p.flags) s paired))
    | inr answered ↦ elim (Option-cases (lookup p.exch_order_id s.handler.exch_to_client_orders)) [
      | inl unknown ↦ rw (answered, unknown, on_payload) (kept s _ (unanswered s paired))
      | inr (o, owned) ↦
          rw (answered, owned, on_payload) (answer_owner-Settles p.msg_type p o s owned paired)
    ]
  ]

  -- If every message to a client is sent or fails in the end, and the exchange order id of each
  -- open order leads back to its client and to the client's own id: `process` ends, whatever the
  -- engine answers and whichever sends fail, and the ids still lead back so.
  pub process-Settles :
      (ps : List Payload) (s : Server) → IsPaired s.handler → Settles (process replies ps s)
  unfolding process
  process-Settles [] s paired = kept s _ (unanswered s paired)
  process-Settles (p ∷ ps) s paired =
      let first = on_payload-Settles p s paired in
      let rest = process-Settles ps first.after first.paired in
      record {
        after = rest.after;
        outs = first.outs ++ rest.outs;
        runs =
            ap (λ r. followed_by replies r (process replies ps)) first.runs
            ∙ ap (λ r. elim r [ none ↦ none | some (s', outs') ↦ some (s', first.outs ++ outs') ])
                rest.runs;
        paired = rest.paired;
      }
