-- ===== src/Broker/Owners.antt =====
-- Whose fill it is, in `MatchingEngineBroker` (matching_engine/me_broker.H).
use ndfex.Prelude.{ℕ, ◌%◌, ◌^◌, ◌≡◌, false, some, arith, ◌==◌, if◌then◌else◌}
use ndfex.Prelude.Map.{lookup, lookup-insert}
use ndfex.Ladder.State.{Ladder}
use ndfex.Broker.{Payload, Broker, owner_key, fill_client, with_owner}

-- After the owner of a new order is written, in a symbol that is known, the fills of a resting
-- order go to that owner if the two ids agree modulo 2 ^ 32, and where they went before
-- otherwise.
pub with_owner-fill_client :
    (p : Payload) (b : Broker) (l : Ladder) (id : ℕ)
    → lookup p.symbol b.ladders ≡ some l
    → fill_client id false (with_owner p b) ≡ (
        if p.exch_order_id % 2 ^ 32 == id % 2 ^ 32
        then some p.client_id
        else fill_client id false b)
unfolding with_owner
with_owner-fill_client p b l id found =
    ground (arith, lookup-insert (owner_key p.exch_order_id) (owner_key id) p.client_id b.owners)
