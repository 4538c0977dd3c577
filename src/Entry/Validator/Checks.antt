-- ===== src/Entry/Validator/Checks.antt =====
-- Which orders `validate_new_order` of order_entry/oe_validator.cpp lets through.
use ndfex.Prelude.{
  ℕ, ◌%◌, ◌<◌, ◌≤◌, ◌≡◌, ◌≢◌, ◌⊎◌, inl, inr, Option, none, some, ltb, ◌==◌, arith, Bool-cases,
  Option-cases,
}
use ndfex.Prelude.Int.{ℤ, ◌≤ℤ◌, ◌<ℤ◌, ltb_ℤ, to_uint32}
use ndfex.Prelude.Map.{Map, lookup}
use ndfex.Protocol.{Side, RejectReason, no_reason, unknown_symbol, invalid_price, invalid_quantity}
use ndfex.Entry.Validator.{SymbolDefinition, validate_new_order}

-- What the exchange asks of an order in the symbol `d`.
pub record IsAdmissible (d : SymbolDefinition) (quantity : ℕ) (price : ℤ) : Type 0 where
  pub in_lots : quantity % d.min_lot_size ≡ 0
  pub in_ticks : to_uint32 price % d.tick_size ≡ 0
  pub some_quantity : 0 < quantity
  pub not_too_large : quantity ≤ d.max_lot_size
  pub not_too_high : price ≤ℤ d.max_price
  pub not_too_low : d.min_price ≤ℤ price

module _ (symbols : Map SymbolDefinition) (id symbol : ℕ) (side : Side) (quantity : ℕ) (price : ℤ)
    (flags : ℕ) where
  abbrev answer : Option RejectReason
  answer = validate_new_order symbols id symbol side quantity price flags

  module _ (d : SymbolDefinition) (known : lookup symbol symbols ≡ some d)
      (some_lot : 0 < d.min_lot_size) (some_tick : 0 < d.tick_size) where
    accepts-IsAdmissible : answer ≡ some no_reason → IsAdmissible d quantity price
    unfolding validate_new_order
    accepts-IsAdmissible e = record {
      in_lots = ground arith;
      in_ticks = ground arith;
      some_quantity = ground arith;
      not_too_large = ground arith;
      not_too_high = ground arith;
      not_too_low = ground arith;
    }

    IsAdmissible-accepts : IsAdmissible d quantity price → answer ≡ some no_reason
    unfolding validate_new_order
    IsAdmissible-accepts a = ground (
      arith, a.in_lots, a.in_ticks, a.some_quantity, a.not_too_large, a.not_too_high, a.not_too_low,
    )

    -- In a known symbol whose lot and tick are not zero, an order is accepted if and only if its
    -- quantity is in lots, more than zero and no more than the largest, and its price is within
    -- the bounds and in ticks, where the ticks are those of the price converted to uint32_t.
    pub validate_new_order_iff :
        (answer ≡ some no_reason → IsAdmissible d quantity price)
        × (IsAdmissible d quantity price → answer ≡ some no_reason)
    validate_new_order_iff = (accepts-IsAdmissible, IsAdmissible-accepts)

-- What is wrong with an order: its symbol is not known, its quantity or its price is against the definition
-- of the symbol, or nothing is.
pub data Judges (symbols : Map SymbolDefinition) (symbol quantity : ℕ) (price : ℤ)
    : RejectReason → Type 0 where
  unlisted : lookup symbol symbols ≡ none → Judges symbols symbol quantity price unknown_symbol
  bad_quantity :
      (d : SymbolDefinition)
      → lookup symbol symbols ≡ some d
      → (quantity % d.min_lot_size ≢ 0) ⊎ (d.max_lot_size < quantity) ⊎ (quantity ≡ 0)
      → Judges symbols symbol quantity price invalid_quantity
  bad_price :
      (d : SymbolDefinition)
      → lookup symbol symbols ≡ some d
      → (to_uint32 price % d.tick_size ≢ 0) ⊎ (d.max_price <ℤ price) ⊎ (price <ℤ d.min_price)
      → Judges symbols symbol quantity price invalid_price
  in_order :
      (d : SymbolDefinition)
      → lookup symbol symbols ≡ some d
      → IsAdmissible d quantity price
      → Judges symbols symbol quantity price no_reason

-- No lot and no tick of a symbol is 0.
abbrev pub IsTradable : Map SymbolDefinition → Type 0
IsTradable symbols =
    (symbol : ℕ) (d : SymbolDefinition)
    → lookup symbol symbols ≡ some d
    → (0 < d.min_lot_size) × (0 < d.tick_size)

module _ (symbols : Map SymbolDefinition) (id symbol : ℕ) (side : Side) (quantity : ℕ) (price : ℤ)
    (flags : ℕ) (tradable : IsTradable symbols) where
  abbrev pub Judged : Type 0
  Judged =
      (why : RejectReason) × ((validate_new_order symbols id symbol side quantity price flags
          ≡ some why)
        × Judges symbols symbol quantity price why)

  module _ (d : SymbolDefinition) (known : lookup symbol symbols ≡ some d) where
    some_lot : 0 < d.min_lot_size
    some_lot = (tradable symbol d known).0

    some_tick : 0 < d.tick_size
    some_tick = (tradable symbol d known).1

    -- The tests of the bounds.
    bounds-Judged : quantity % d.min_lot_size ≡ 0 → to_uint32 price % d.tick_size ≡ 0 → Judged
    unfolding validate_new_order
    bounds-Judged lots ticks = elim (Bool-cases (ltb d.max_lot_size quantity)) [
      | inl large ↦ (
        invalid_quantity,
        (
          ground (arith, known, some_lot, some_tick),
          bad_quantity d known (inr (inl (ground (arith, large)))),
        ),
      )
      | inr fits ↦ elim (Bool-cases (ltb_ℤ d.max_price price)) [
        | inl high ↦ (
          invalid_price,
          (
            ground (arith, known, some_lot, some_tick),
            bad_price d known (inr (inl (ground (arith, high)))),
          ),
        )
        | inr not_high ↦ elim (Bool-cases (ltb_ℤ price d.min_price)) [
          | inl low ↦ (
            invalid_price,
            (
              ground (arith, known, some_lot, some_tick),
              bad_price d known (inr (inr (ground (arith, low)))),
            ),
          )
          | inr not_low ↦ elim (Bool-cases (quantity == 0)) [
            | inl empty ↦ (
              invalid_quantity,
              (
                ground (arith, known, some_lot, some_tick),
                bad_quantity d known (inr (inr (ground (arith, empty)))),
              ),
            )
            | inr some_left ↦
                let fine : validate_new_order symbols id symbol side quantity price flags
                    ≡ some no_reason =
                  ground (arith, known, some_lot, some_tick) in
                (
                  no_reason,
                  (
                    fine,
                    in_order d known (
                        accepts-IsAdmissible symbols id symbol side quantity price flags d known
                          some_lot some_tick fine),
                  ),
                )
          ]
        ]
      ]
    ]

    listed-Judged : Judged
    unfolding validate_new_order
    listed-Judged = elim (Bool-cases (quantity % d.min_lot_size == 0)) [
      | inr odd_lot ↦ (
        invalid_quantity,
        (ground (arith, known, some_lot), bad_quantity d known (inl (ground (arith, odd_lot)))),
      )
      | inl lots ↦ elim (Bool-cases (to_uint32 price % d.tick_size == 0)) [
        | inr odd_tick ↦ (
          invalid_price,
          (
            ground (arith, known, some_lot, some_tick),
            bad_price d known (inl (ground (arith, odd_tick))),
          ),
        )
        | inl ticks ↦ bounds-Judged (ground (arith, lots)) (ground (arith, ticks))
      ]
    ]

  pub validate_new_order-Judged : Judged
  unfolding validate_new_order
  validate_new_order-Judged = elim (Option-cases (lookup symbol symbols)) [
    | inl missing ↦ (unknown_symbol, (ground (arith, missing), unlisted missing))
    | inr (d, known) ↦ listed-Judged d known
  ]
