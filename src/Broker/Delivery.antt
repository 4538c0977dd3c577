-- ===== src/Broker/Delivery.antt =====
-- What `MatchingEngineBroker` (matching_engine/me_broker.H) makes of the calls of a ladder: they are all
-- answered if every resting order has an owner, and what is traded is reported to clearing twice.
use mathlib.Core.List.{append-nil, append_assoc}
use ndfex.Prelude.{
  ℕ, ◌+◌, ◌≡◌, refl, sym, ap, ◌∙◌, inl, inr, Bool, true, false, ◌&&◌, List, [], ◌∷◌, ◌++◌, Option,
  none, some, arith, Option-cases,
}
use ndfex.Prelude.Int.{to_uint32}
use ndfex.Prelude.Map.{Map, lookup}
use ndfex.Protocol.{MsgType}
use ndfex.Ladder.State.{
  Event, on_trade, on_fill, on_new_order, on_modify_order, on_delete_order, on_cancel_reject,
}
use ndfex.Ladder.Sweep.Quantity.{filled}
use ndfex.Broker.{
  Trade, Output, answer, publish_new_order, publish_modify_order, publish_delete_order,
  publish_trade_summary, publish_trade, publish_fill, Broker, done, owner_key, flag_byte, on_event,
  deliver,
}

abbrev pub is_some : {A : Type 0} → Option A → Bool
is_some none = false
is_some (some a) = true

-- Every fill of a resting order is of an order that has an owner.
abbrev pub owned : Map ℕ → List Event → Bool
owned owners [] = true
owned owners (on_trade id n p ∷ es) = owned owners es
owned owners (on_fill id symbol side n p flag true ∷ es) = owned owners es
owned owners (on_fill id symbol side n p flag false ∷ es) =
    is_some (lookup (owner_key id) owners) && owned owners es
owned owners (on_new_order id symbol side n p flags ∷ es) = owned owners es
owned owners (on_modify_order id symbol side n p ∷ es) = owned owners es
owned owners (on_delete_order id publish ∷ es) = owned owners es
owned owners (on_cancel_reject id ∷ es) = owned owners es

-- The trades of the calls.
abbrev pub trades : List Event → List Trade
trades [] = []
trades (on_trade id n p ∷ es) = record { order_id = id; quantity = n; price = p } ∷ trades es
trades (on_fill id symbol side n p flag active ∷ es) = trades es
trades (on_new_order id symbol side n p flags ∷ es) = trades es
trades (on_modify_order id symbol side n p ∷ es) = trades es
trades (on_delete_order id publish ∷ es) = trades es
trades (on_cancel_reject id ∷ es) = trades es

-- The quantity that is reported to clearing.
unfoldable pub cleared : List Output → ℕ
cleared [] = 0
cleared (publish_fill client symbol n p side ∷ os) = n + cleared os
cleared (answer p ∷ os) = cleared os
cleared (publish_new_order id symbol side n p flags ∷ os) = cleared os
cleared (publish_modify_order id side n p ∷ os) = cleared os
cleared (publish_delete_order id ∷ os) = cleared os
cleared (publish_trade_summary symbol side n p ∷ os) = cleared os
cleared (publish_trade t ∷ os) = cleared os

-- The quantity of the trades that are published to the market.
unfoldable pub published : List Output → ℕ
published [] = 0
published (publish_trade t ∷ os) = t.quantity + published os
published (publish_fill client symbol n p side ∷ os) = published os
published (answer p ∷ os) = published os
published (publish_new_order id symbol side n p flags ∷ os) = published os
published (publish_modify_order id side n p ∷ os) = published os
published (publish_delete_order id ∷ os) = published os
published (publish_trade_summary symbol side n p ∷ os) = published os

pub cleared-append : (os os' : List Output) → cleared (os ++ os') ≡ cleared os + cleared os'
unfolding cleared
cleared-append [] os' = ground arith
cleared-append (o ∷ os) os' = ground (arith, cleared-append os os')

pub published-append : (os os' : List Output) → published (os ++ os') ≡ published os + published os'
unfolding published
published-append [] os' = ground arith
published-append (o ∷ os) os' = ground (arith, published-append os os')

abbrev pub queued : Broker → List Trade → Broker
queued b ts = record b { queued_trades = b.queued_trades ++ ts }

-- One call.
pub record Delivers (es : List Event) (b : Broker) : Type 0 where
  pub outputs : List Output
  pub runs : deliver es b ≡ (done, queued b (trades es), outputs)
  pub clears : cleared outputs ≡ filled true es + filled false es
  pub publishes : published outputs ≡ 0

deliver-step :
    (e : Event) (es : List Event) (b b' b'' : Broker) (outs outs' : List Output)
    → on_event e b ≡ (done, b', outs)
    → deliver es b' ≡ (done, b'', outs')
    → deliver (e ∷ es) b ≡ (done, b'', outs ++ outs')
unfolding deliver
deliver-step e es b b' b'' outs outs' run rest = ground arith

-- A call and those after it, of which the trades are queued.
deliver-cons :
    (e : Event) (es : List Event) (b : Broker) (ts : List Trade) (outs : List Output)
    → on_event e b ≡ (done, queued b ts, outs)
    → cleared outs + (filled true es + filled false es)
      ≡ filled true (e ∷ es) + filled false (e ∷ es)
    → published outs ≡ 0
    → trades (e ∷ es) ≡ ts ++ trades es
    → Delivers es (queued b ts)
    → Delivers (e ∷ es) b
deliver-cons e es b ts outs run clears publishes split rest = record {
  outputs = outs ++ rest.outputs;
  runs =
      deliver-step e es b (queued b ts) _ outs rest.outputs run rest.runs
      ∙ ap (λ q. (done, record b { queued_trades = q }, outs ++ rest.outputs))
          (append_assoc b.queued_trades ts (trades es)
            ∙ ap (λ q. b.queued_trades ++ q) (sym split));
  clears = cleared-append outs rest.outputs ∙ (rw rest.clears clears);
  publishes = ground (arith, published-append outs rest.outputs, rest.publishes);
}

-- A call that queues no trade.
deliver-plain :
    (e : Event) (es : List Event) (b : Broker) (outs : List Output)
    → on_event e b ≡ (done, b, outs)
    → cleared outs + (filled true es + filled false es)
      ≡ filled true (e ∷ es) + filled false (e ∷ es)
    → published outs ≡ 0
    → trades (e ∷ es) ≡ trades es
    → Delivers es b
    → Delivers (e ∷ es) b
deliver-plain e es b outs run clears publishes same rest = record {
  outputs = outs ++ rest.outputs;
  runs =
      deliver-step e es b b _ outs rest.outputs run rest.runs
      ∙ ap (λ q. (done, queued b q, outs ++ rest.outputs)) (sym same);
  clears = cleared-append outs rest.outputs ∙ (rw rest.clears clears);
  publishes = ground (arith, published-append outs rest.outputs, rest.publishes);
}

pub deliver-Delivers : (es : List Event) (b : Broker) → owned b.owners es ≡ true → Delivers es b
unfolding deliver on_event cleared published filled
deliver-Delivers [] b h = record {
  outputs = [];
  runs = ap (λ q. (done, record b { queued_trades = q }, [])) (sym (append-nil b.queued_trades));
  clears = ground arith;
  publishes = refl;
}
deliver-Delivers (on_trade id n p ∷ es) b h =
    deliver-cons (on_trade id n p) es b (record { order_id = id; quantity = n; price = p } ∷ []) []
      refl (ground arith) refl refl (deliver-Delivers es _ h)
deliver-Delivers (on_fill id symbol side n p flag true ∷ es) b h =
    deliver-plain (on_fill id symbol side n p flag true) es b _ refl (ground arith) refl refl
      (deliver-Delivers es b h)
deliver-Delivers (on_fill id symbol side n p flag false ∷ es) b h =
    elim (Option-cases (lookup (owner_key id) b.owners)) [
      | inl missing ↦ absurd (missing_owner missing h)
      | inr (client, e) ↦
          deliver-plain (on_fill id symbol side n p flag false) es b
            (answer (record {
              msg_type = MsgType.fill;
              exch_order_id = id;
              symbol = symbol;
              client_seq = 0;
              client_id = client;
              side = side;
              quantity = n;
              price = to_uint32 p;
              flags = flag_byte flag;
            })
              ∷ publish_fill client symbol n p side
              ∷ [])
            (ground (arith, e)) (ground arith) refl refl (deliver-Delivers es b (ground arith))
    ]
  where
    missing_owner :
        lookup (owner_key id) b.owners ≡ none
        → (is_some (lookup (owner_key id) b.owners) && owned b.owners es) ≡ true
        → ⊥
    missing_owner e f = ground arith
deliver-Delivers (on_new_order id symbol side n p flags ∷ es) b h =
    deliver-plain (on_new_order id symbol side n p flags) es b _ refl (ground arith) (ground arith)
      refl (deliver-Delivers es b h)
deliver-Delivers (on_modify_order id symbol side n p ∷ es) b h =
    deliver-plain (on_modify_order id symbol side n p) es b _ refl (ground arith) refl refl
      (deliver-Delivers es b h)
deliver-Delivers (on_delete_order id publish ∷ es) b h =
    deliver-plain (on_delete_order id publish) es b _ refl (ground arith) (ground arith) refl
      (deliver-Delivers es b h)
deliver-Delivers (on_cancel_reject id ∷ es) b h =
    deliver-plain (on_cancel_reject id) es b _ refl (ground arith) refl refl
      (deliver-Delivers es b h)
