-- ===== src/Entry/Handler/Closing.antt =====
-- `on_socket_closed` and `cancel_all_client_orders` of `ClientHandler` (order_entry/oe_client_handler.cpp): what is
-- left when the socket of a client is closed, and what the engine is asked to delete.
use mathlib.Core.List.{Memᴰ}
use mathlib.Core.List.Memᴰ
use mathlib.Core.List.Memᴰ.{head, tail}
use mathlib.Core.Path.{subst}
use ndfex.Prelude.{
  ◌⊎◌, ℕ, ◌≡◌, refl, ap, ◌∙◌, inl, inr, false, List, [], ◌∷◌, none, some, arith, ◌==◌,
  if◌then◌else◌, Bool-cases, Option-cases,
}
use ndfex.Prelude.Map.{Map, lookup, erase, lookup-erase, IsUnique}
use ndfex.Prelude.Bytes.{length}
use ndfex.Protocol.{MsgType}
use ndfex.Broker.{Payload}
use ndfex.Entry.Handler.{
  Handler, OpenOrder, SessionInfo, orders_of, open_order, cancellations, on_socket_closed,
}
use ndfex.Entry.Handler.Maps.{IsPaired, on_socket_closed-IsPaired}

-- The payload asks to delete an order of a client.
pub record Cancels (client : ℕ) (o : OpenOrder) (p : Payload) : Type 0 where
  pub msg_type : p.msg_type ≡ MsgType.delete_order
  pub exch_order_id : p.exch_order_id ≡ o.exch_order_id
  pub symbol : p.symbol ≡ o.symbol
  pub client_id : p.client_id ≡ client

cancellations-covers :
    (client id : ℕ) (o : OpenOrder) (m : Map OpenOrder)
    → lookup id m ≡ some o
    → (p : Payload) × Memᴰ p (cancellations client m) × Cancels client o p
unfolding lookup cancellations
cancellations-covers client id o [] e = absurd cc
cancellations-covers client id o ((k, x) ∷ m) e = elim (Bool-cases (k == id)) [
  | inl here ↦
      let same : x ≡ o = ground (arith, e, here) in
      (
        _,
        head refl,
        record {
          msg_type = refl;
          exch_order_id = ap (λ y. y.exch_order_id) same;
          symbol = ap (λ y. y.symbol) same;
          client_id = refl;
        },
      )
  | inr elsewhere ↦
      let (p, there, asks) = cancellations-covers client id o m (ground (arith, e, elsewhere)) in
      (p, tail there, asks)
]

cancellations-open :
    (client : ℕ) (m : Map OpenOrder) (p : Payload)
    → IsUnique m
    → Memᴰ p (cancellations client m)
    → (id : ℕ) × (o : OpenOrder) × (lookup id m ≡ some o) × Cancels client o p
unfolding lookup cancellations
cancellations-open client [] p unique there = absurd (Memᴰ.not-nil there)
cancellations-open client ((k, x) ∷ m) p (fresh, unique) (head e) = (
  k,
  x,
  ground arith,
  record {
    msg_type = ap (λ q. q.msg_type) e;
    exch_order_id = ap (λ q. q.exch_order_id) e;
    symbol = ap (λ q. q.symbol) e;
    client_id = ap (λ q. q.client_id) e;
  },
)
cancellations-open client ((k, x) ∷ m) p (fresh, unique) (tail there) =
    let (id, o, found, asks) = cancellations-open client m p unique there in
    (id, o, ground (arith, found, fresh), asks)

length-cancellations : (client : ℕ) (m : Map OpenOrder) → length (cancellations client m) ≡ length m
unfolding length cancellations
length-cancellations client [] = refl
length-cancellations client ((k, x) ∷ m) = omega (arith, length-cancellations client m)

-- The session of the socket is over: its client has no session and no open order any more, the engine is
-- asked to delete each order that was open, once, and no other, and the other clients keep theirs.
pub record Closes (client sock : ℕ) (s : Handler) (r : Handler × List Payload) : Type 0 where
  pub emptied : (id : ℕ) → open_order client id r.0 ≡ none
  pub others :
      (other id : ℕ) → (client == other) ≡ false → open_order other id r.0 ≡ open_order other id s
  pub no_socket : lookup client r.0.client_to_sock_fd ≡ none
  pub other_sockets :
      (other : ℕ)
      → (client == other) ≡ false
      → lookup other r.0.client_to_sock_fd ≡ lookup other s.client_to_sock_fd
  pub no_session : lookup sock r.0.sock_to_session_info ≡ none
  pub other_sessions :
      (other : ℕ)
      → (sock == other) ≡ false
      → lookup other r.0.sock_to_session_info ≡ lookup other s.sock_to_session_info
  pub covers :
      (id : ℕ) (o : OpenOrder)
      → open_order client id s ≡ some o
      → (p : Payload) × Memᴰ p r.1 × Cancels client o p
  pub asked :
      (p : Payload)
      → Memᴰ p r.1
      → (id : ℕ) × (o : OpenOrder) × (open_order client id s ≡ some o) × Cancels client o p
  pub counted : length r.1 ≡ length (orders_of client s)
  pub exchange : r.0.exch_to_client_orders ≡ s.exch_to_client_orders
  pub paired : IsPaired r.0

-- A socket without a session changes nothing.
abbrev pub Closed : ℕ → Handler → Handler × List Payload → Type 0
Closed sock s r =
    ((lookup sock s.sock_to_session_info ≡ none) × (r ≡ (s, [])))
    ⊎ ((i : SessionInfo) × (lookup sock s.sock_to_session_info ≡ some i)
        × Closes i.client_id sock s r)

module _ (sock : ℕ) (s : Handler) (paired : IsPaired s) (i : SessionInfo)
    (found : lookup sock s.sock_to_session_info ≡ some i) where
  abbrev closed : Handler
  closed = record s {
    client_to_open_orders = erase i.client_id s.client_to_open_orders;
    client_to_sock_fd = erase i.client_id s.client_to_sock_fd;
    sock_to_session_info = erase sock s.sock_to_session_info;
  }

  on_socket_closed-found :
      on_socket_closed sock s ≡ (closed, cancellations i.client_id (orders_of i.client_id s))
  unfolding on_socket_closed
  on_socket_closed-found = ground (arith, found)

  open_order-closed :
      (other id : ℕ)
      → open_order other id closed ≡ (if i.client_id == other then none else open_order other id s)
  unfolding lookup
  open_order-closed other id =
      ground (arith, lookup-erase i.client_id other s.client_to_open_orders)

  on_socket_closed-Closes :
      IsUnique (orders_of i.client_id s) → Closes i.client_id sock s (on_socket_closed sock s)
  on_socket_closed-Closes unique =
      let kept = on_socket_closed-IsPaired sock s paired in
      let kept' = subst (λ r. IsPaired r.0) on_socket_closed-found kept in
      rw on_socket_closed-found (record {
        emptied = λ id. open_order-closed i.client_id id ∙ (ground arith);
        others = λ other id apart. open_order-closed other id ∙ (rw apart refl);
        no_socket = ground (arith, lookup-erase i.client_id i.client_id s.client_to_sock_fd);
        other_sockets =
            λ other apart. lookup-erase i.client_id other s.client_to_sock_fd ∙ (rw apart refl);
        no_session = ground (arith, lookup-erase sock sock s.sock_to_session_info);
        other_sessions =
            λ other apart. lookup-erase sock other s.sock_to_session_info ∙ (rw apart refl);
        covers = λ id o open_there.
            cancellations-covers i.client_id id o (orders_of i.client_id s) open_there;
        asked = λ p there. cancellations-open i.client_id (orders_of i.client_id s) p unique there;
        counted = length-cancellations i.client_id (orders_of i.client_id s);
        exchange = refl;
        paired = kept';
      })

on_socket_closed-missing :
    (sock : ℕ) (s : Handler)
    → lookup sock s.sock_to_session_info ≡ none
    → on_socket_closed sock s ≡ (s, [])
unfolding on_socket_closed
on_socket_closed-missing sock s missing = ground (arith, missing)

-- Where the exchange order id of each open order leads back to its client and to the client's own
-- id, and no client has an id twice: `on_socket_closed` keeps the maps so paired, and changes
-- nothing at a socket without a session. Otherwise the session, the socket and the open orders of
-- its client are gone, those of the others and the exchange order ids stay, and the engine is
-- asked to delete each order of the client that was open, nothing else, and as often as there
-- were open orders.
pub on_socket_closed-Closed :
    (sock : ℕ) (s : Handler)
    → IsPaired s
    → ((client : ℕ) → IsUnique (orders_of client s))
    → Closed sock s (on_socket_closed sock s)
on_socket_closed-Closed sock s paired unique =
    elim (Option-cases (lookup sock s.sock_to_session_info)) [
      | inl missing ↦ inl (missing, on_socket_closed-missing sock s missing)
      | inr (i, found) ↦
          inr (i, found, on_socket_closed-Closes sock s paired i found (unique i.client_id))
    ]
