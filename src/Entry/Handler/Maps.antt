-- ===== src/Entry/Handler/Maps.antt =====
-- The two maps of orders of `ClientHandler` (order_entry/oe_client_handler.cpp): the exchange order id of
-- an open order leads back to its client and to its own id.
use ndfex.Prelude.{ℕ, ◌≡◌, inl, inr, none, some, arith, ◌==◌, Bool-cases, Option-cases}
use ndfex.Prelude.Map.{lookup, insert, lookup-insert, lookup-erase}
use ndfex.Entry.Handler.{
  Handler, Header, OpenOrder, orders_of, open_order, record_order, touch, on_socket_closed,
}

abbrev pub IsPaired : Handler → Type 0
IsPaired s =
    (client id : ℕ) (o : OpenOrder)
    → open_order client id s ≡ some o
    → lookup o.exch_order_id s.exch_to_client_orders
      ≡ some (record { client_id = client; order_id = id })

pub record_order-IsPaired :
    (now : ℕ) (h : Header) (id symbol : ℕ) (s : Handler)
    → IsPaired s
    → lookup now s.exch_to_client_orders ≡ none
    → IsPaired (record_order now h id symbol s)
unfolding record_order
record_order-IsPaired now h id symbol s p fresh client id' o e =
    elim (Bool-cases (h.client_id == client)) [
      | inl same ↦ elim (Bool-cases (id == id')) [
        | inl this ↦ ground (
          arith,
          lookup-insert h.client_id client
              (insert id (record { exch_order_id = now; symbol = symbol })
                (orders_of h.client_id s))
              s.client_to_open_orders,
          lookup-insert id id' (record { exch_order_id = now; symbol = symbol })
              (orders_of h.client_id s),
          lookup-insert now o.exch_order_id (record { client_id = h.client_id; order_id = id })
              s.exch_to_client_orders,
        )
        | inr that ↦ ground (
          arith,
          lookup-insert h.client_id client
              (insert id (record { exch_order_id = now; symbol = symbol })
                (orders_of h.client_id s))
              s.client_to_open_orders,
          lookup-insert id id' (record { exch_order_id = now; symbol = symbol })
              (orders_of h.client_id s),
          lookup-insert now o.exch_order_id (record { client_id = h.client_id; order_id = id })
              s.exch_to_client_orders,
          p client id' o,
        )
      ]
      | inr not_same ↦ ground (
        arith,
        lookup-insert h.client_id client
            (insert id (record { exch_order_id = now; symbol = symbol }) (orders_of h.client_id s))
            s.client_to_open_orders,
        lookup-insert now o.exch_order_id (record { client_id = h.client_id; order_id = id })
            s.exch_to_client_orders,
        p client id' o,
      )
    ]

pub touch-IsPaired : (client : ℕ) (s : Handler) → IsPaired s → IsPaired (touch client s)
touch-IsPaired client s p client' id o e = ground (
  arith,
  lookup-insert client client' (orders_of client s) s.client_to_open_orders,
  p client' id o,
)

-- Where the exchange order id of each open order leads back to its client and to the client's own
-- id, it does so after `on_socket_closed`.
pub on_socket_closed-IsPaired :
    (sock : ℕ) (s : Handler) → IsPaired s → IsPaired (on_socket_closed sock s).0
unfolding on_socket_closed lookup
on_socket_closed-IsPaired sock s p client id o e =
    elim (Option-cases (lookup sock s.sock_to_session_info)) [
      | inl missing ↦ ground (arith, p client id o)
      | inr (i, found) ↦
          ground (arith, lookup-erase i.client_id client s.client_to_open_orders, p client id o)
    ]
