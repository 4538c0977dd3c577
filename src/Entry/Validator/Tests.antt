-- ===== src/Entry/Validator/Tests.antt =====
-- Orders in a symbol with ticks of 10 and lots of 2, for order_entry/oe_validator.cpp.
use ndfex.Prelude.{◌≡◌, refl, [], ◌∷◌, some, arith}
use ndfex.Prelude.Int.{pos, negsuc, to_uint32}
use ndfex.Prelude.Map.{Map, lookup}
use ndfex.Protocol.{buy, other, no_reason, invalid_price, invalid_quantity, unknown_symbol}
use ndfex.Entry.Validator.{SymbolDefinition, validate_new_order}
use ndfex.Entry.Validator.Checks.{IsAdmissible, validate_new_order_iff}

abbrev gold : SymbolDefinition
gold = record {
  symbol = 1;
  tick_size = 10;
  min_lot_size = 2;
  max_lot_size = 100;
  max_price = pos 5000;
  min_price = negsuc 4999;
}

abbrev symbols : Map SymbolDefinition
symbols = (1, gold) ∷ []

validate_new_order_iff_example :
    (validate_new_order symbols 5 1 buy 4 (pos 120) 0 ≡ some no_reason
      → IsAdmissible gold 4 (pos 120))
    × (IsAdmissible gold 4 (pos 120)
        → validate_new_order symbols 5 1 buy 4 (pos 120) 0 ≡ some no_reason)
unfolding lookup
validate_new_order_iff_example =
    validate_new_order_iff symbols 5 1 buy 4 (pos 120) 0 gold refl (omega arith) (omega arith)

validate-runs :
    (validate_new_order symbols 5 1 buy 4 (pos 120) 0 ≡ some no_reason)
    × (validate_new_order symbols 5 1 (other 9) 4 (pos 120) 0 ≡ some no_reason)
    × (validate_new_order symbols 5 1 buy 3 (pos 120) 0 ≡ some invalid_quantity)
    × (validate_new_order symbols 5 1 buy 0 (pos 120) 0 ≡ some invalid_quantity)
    × (validate_new_order symbols 5 1 buy 4 (pos 121) 0 ≡ some invalid_price)
    × (validate_new_order symbols 5 2 buy 4 (pos 120) 0 ≡ some unknown_symbol)
unfolding validate_new_order to_uint32 lookup
validate-runs = (refl, refl, refl, refl, refl, refl)

-- Below zero the ticks are those of the number that wraps around: -10 is turned away, and -6 is not.
validate-negative :
    (validate_new_order symbols 5 1 buy 4 (negsuc 9) 0 ≡ some invalid_price)
    × (validate_new_order symbols 5 1 buy 4 (negsuc 5) 0 ≡ some no_reason)
unfolding validate_new_order to_uint32 lookup
validate-negative = (refl, refl)
