-- ===== src/Bots/MdClient/Recovery/Collect.antt =====
-- A snapshot of one symbol (bots/md_client.cpp, `wait_for_snapshot`): when it is complete, and what it holds.
use mathlib.Core.Path.{subst}
use mathlib.Core.List.{append_assoc, append-nil}
use ndfex.Prelude.{
  ℕ, zero, suc, ◌+◌, ◌≡◌, sym, ap, ◌∙◌, inl, inr, true, false, List, [], ◌∷◌, ◌++◌, none, some,
  arith, if◌then◌else◌, Bool-cases,
}
use ndfex.Prelude.Int.{ℤ, pos, eqb_ℤ}
use ndfex.Prelude.Map.{Map, insert, lookup-insert_self}
use ndfex.Protocol.{is_buy}
use ndfex.Bots.MdClient.{SnapshotOrder}
use ndfex.Bots.MdClient.Recovery.{
  Recovery, count_of, decrement, is_complete, snapshot_of, check_complete, start_snapshot,
  count_order, keep_order, snapshot_order,
}

-- How many orders are to buy, and how many are not.
abbrev pub buys : List SnapshotOrder → ℕ
buys [] = 0
buys (o ∷ os) = if is_buy o.side then suc (buys os) else buys os

abbrev pub sells : List SnapshotOrder → ℕ
sells [] = 0
sells (o ∷ os) = if is_buy o.side then sells os else suc (sells os)

-- The orders come one after the other.
abbrev pub take_orders : List SnapshotOrder → Recovery → Recovery
take_orders [] r = r
take_orders (o ∷ os) r = take_orders os (snapshot_order o r)

-- Every order is of the symbol.
abbrev pub AllOf : ℕ → List SnapshotOrder → Type 0
AllOf symbol [] = Unit {0}
AllOf symbol (o ∷ os) = (o.symbol ≡ symbol) × AllOf symbol os

-- So many orders of the symbol are missing, and these are there.
record Missing (symbol nb na : ℕ) (os : List SnapshotOrder) (r : Recovery) : Type 0 where
  bids : count_of symbol r.symbol_to_bid_orders ≡ pos nb
  asks : count_of symbol r.symbol_to_ask_orders ≡ pos na
  held : snapshot_of symbol r.client ≡ os
  completed : nb + na ≡ 0 → is_complete symbol r.client ≡ true

check_complete-Missing :
    (symbol nb na : ℕ) (os : List SnapshotOrder) (r : Recovery)
    → count_of symbol r.symbol_to_bid_orders ≡ pos nb
    → count_of symbol r.symbol_to_ask_orders ≡ pos na
    → snapshot_of symbol r.client ≡ os
    → Missing symbol nb na os (check_complete symbol r)
unfolding check_complete
check_complete-Missing symbol zero zero os r b a h =
    rw (b, a)
      (record {
        bids = b;
        asks = a;
        held = h;
        completed = λ e.
            ap (λ o. elim o [ none ↦ false | some c ↦ c ])
              (lookup-insert_self symbol true r.client.snapshot_complete);
      })
check_complete-Missing symbol (suc nb) na os r b a h =
    let missing : eqb_ℤ (pos (suc nb)) (pos 0) ≡ false = ground arith in
    rw (b, a, missing)
      (record { bids = b; asks = a; held = h; completed = λ e. absurd (omega (arith, e)) })
check_complete-Missing symbol zero (suc na) os r b a h =
    let missing : eqb_ℤ (pos (suc na)) (pos 0) ≡ false = ground arith in
    rw (b, a, missing)
      (record { bids = b; asks = a; held = h; completed = λ e. absurd (omega (arith, e)) })

count_of-insert :
    (symbol : ℕ) (n : ℤ) (counts : Map ℤ) → count_of symbol (insert symbol n counts) ≡ n
count_of-insert symbol n counts =
    ap (λ o. elim o [ none ↦ pos 0 | some k ↦ k ]) (lookup-insert_self symbol n counts)

snapshot_of-keep_order :
    (o : SnapshotOrder) (r : Recovery)
    → snapshot_of o.symbol (keep_order o r).client ≡ snapshot_of o.symbol r.client ++ (o ∷ [])
unfolding keep_order
snapshot_of-keep_order o r =
    ap (λ k. elim k [ none ↦ [] | some os ↦ os ])
      (lookup-insert_self o.symbol (snapshot_of o.symbol r.client ++ (o ∷ []))
        r.client.snapshot_buffer)

-- An order that was missing comes.
bid-Missing :
    (o : SnapshotOrder) (nb na : ℕ) (os : List SnapshotOrder) (r : Recovery)
    → is_buy o.side ≡ true
    → Missing o.symbol (suc nb) na os r
    → Missing o.symbol nb na (os ++ (o ∷ [])) (snapshot_order o r)
unfolding snapshot_order keep_order count_order
bid-Missing o nb na os r buying m = rw buying (
    check_complete-Missing o.symbol nb na (os ++ (o ∷ [])) _
      (count_of-insert o.symbol _ r.symbol_to_bid_orders ∙ ap decrement m.bids) m.asks
      (snapshot_of-keep_order o r ∙ ap (λ k. k ++ (o ∷ [])) m.held))

ask-Missing :
    (o : SnapshotOrder) (nb na : ℕ) (os : List SnapshotOrder) (r : Recovery)
    → is_buy o.side ≡ false
    → Missing o.symbol nb (suc na) os r
    → Missing o.symbol nb na (os ++ (o ∷ [])) (snapshot_order o r)
unfolding snapshot_order keep_order count_order
ask-Missing o nb na os r selling m = rw selling (
    check_complete-Missing o.symbol nb na (os ++ (o ∷ [])) _ m.bids
      (count_of-insert o.symbol _ r.symbol_to_ask_orders ∙ ap decrement m.asks)
      (snapshot_of-keep_order o r ∙ ap (λ k. k ++ (o ∷ [])) m.held))

order-Missing :
    (symbol : ℕ) (o : SnapshotOrder) (os prior : List SnapshotOrder) (r : Recovery)
    → o.symbol ≡ symbol
    → Missing symbol (buys (o ∷ os)) (sells (o ∷ os)) prior r
    → Missing symbol (buys os) (sells os) (prior ++ (o ∷ [])) (snapshot_order o r)
order-Missing symbol o os prior r same m =
    subst (λ k. Missing k (buys os) (sells os) (prior ++ (o ∷ [])) (snapshot_order o r)) same
      (elim (Bool-cases (is_buy o.side)) [
        | inl buying ↦ bid-Missing o (buys os) (sells os) prior r buying (
            subst
              (λ b.
                Missing o.symbol (if b then suc (buys os) else buys os)
                  (if b then sells os else suc (sells os)) prior r)
              buying here)
        | inr selling ↦ ask-Missing o (buys os) (sells os) prior r selling (
            subst
              (λ b.
                Missing o.symbol (if b then suc (buys os) else buys os)
                  (if b then sells os else suc (sells os)) prior r)
              selling here)
      ])
  where
    here : Missing o.symbol (buys (o ∷ os)) (sells (o ∷ os)) prior r
    here = subst (λ k. Missing k (buys (o ∷ os)) (sells (o ∷ os)) prior r) (sym same) m

take_orders-Missing :
    (symbol : ℕ) (os prior : List SnapshotOrder) (r : Recovery)
    → AllOf symbol os
    → Missing symbol (buys os) (sells os) prior r
    → Missing symbol 0 0 (prior ++ os) (take_orders os r)
take_orders-Missing symbol [] prior r same m =
    subst (λ k. Missing symbol 0 0 k r) (sym (append-nil prior)) m
take_orders-Missing symbol (o ∷ os) prior r (same, all) m =
    subst (λ k. Missing symbol 0 0 k (take_orders os (snapshot_order o r)))
      (append_assoc prior (o ∷ []) os)
      (take_orders-Missing symbol os (prior ++ (o ∷ [])) (snapshot_order o r) all
        (order-Missing symbol o os prior r same m))

start_snapshot-Missing :
    (symbol nb na last_seq : ℕ) (r : Recovery)
    → Missing symbol nb na [] (start_snapshot symbol nb na last_seq r)
unfolding start_snapshot
start_snapshot-Missing symbol nb na last_seq r =
    check_complete-Missing symbol nb na [] _
      (count_of-insert symbol (pos nb) r.symbol_to_bid_orders)
      (count_of-insert symbol (pos na) r.symbol_to_ask_orders)
      (ap (λ k. elim k [ none ↦ [] | some os ↦ os ])
        (lookup-insert_self symbol [] r.client.snapshot_buffer))

-- Once a snapshot of a symbol begins with the numbers of its buy and its other orders, and just
-- these orders of the symbol come, the snapshot of the symbol is complete, and holds the orders
-- in that order.
pub start_snapshot-collects :
    (symbol last_seq : ℕ) (os : List SnapshotOrder) (r : Recovery)
    → AllOf symbol os
    → (is_complete symbol
          (take_orders os (start_snapshot symbol (buys os) (sells os) last_seq r)).client
        ≡ true)
      × (snapshot_of symbol
            (take_orders os (start_snapshot symbol (buys os) (sells os) last_seq r)).client
          ≡ os)
start_snapshot-collects symbol last_seq os r same =
    let m =
      take_orders-Missing symbol os [] (start_snapshot symbol (buys os) (sells os) last_seq r) same
        (start_snapshot-Missing symbol (buys os) (sells os) last_seq r) in
    (m.completed (omega arith), m.held)
