-- ===== src/Entry/Validator.antt =====
-- `OrderEntryValidator` (order_entry/oe_validator.cpp): the checks of a new order against its symbol.
pub mod Checks
mod Tests
use ndfex.Prelude.{ℕ, ◌%◌, not, Option, none, some, ltb, ◌==◌, if◌then◌else◌}
use ndfex.Prelude.Int.{ℤ, ltb_ℤ, to_uint32}
use ndfex.Prelude.Map.{Map, lookup}
use ndfex.Protocol.{Side, RejectReason, no_reason, unknown_symbol, invalid_price, invalid_quantity}

-- `symbol_definition` (matching_engine/symbol_definition.H)
pub record SymbolDefinition : Type 0 where
  pub symbol : ℕ
  pub tick_size : ℕ
  pub min_lot_size : ℕ
  pub max_lot_size : ℕ
  pub max_price : ℤ
  pub min_price : ℤ

-- `a % b != 0`, and the answer where it holds. Division by zero is a trap: it leaves no answer.
abbrev pub unless_divides : ℕ → ℕ → RejectReason → Option RejectReason → Option RejectReason
unless_divides b a reason rest =
    if b == 0 then none else if not (a % b == 0) then some reason else rest

unfoldable pub validate_new_order :
    Map SymbolDefinition → ℕ → ℕ → Side → ℕ → ℤ → ℕ → Option RejectReason
validate_new_order symbols order_id symbol side quantity price flags =
    elim (lookup symbol symbols) [
      | none ↦ some unknown_symbol
      | some d ↦ unless_divides d.min_lot_size quantity invalid_quantity (
          unless_divides d.tick_size (to_uint32 price) invalid_price (
            if ltb d.max_lot_size quantity
            then some invalid_quantity
            else if ltb_ℤ d.max_price price
            then some invalid_price
            else if ltb_ℤ price d.min_price
            then some invalid_price
            else if quantity == 0
            then some invalid_quantity
            else some no_reason))
    ]
