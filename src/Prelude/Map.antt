-- ===== src/Prelude/Map.antt =====
-- std::unordered_map with integral keys, as an association list. The laws below are all that the
-- proofs use: the functions stay shut outside this module, except in runs at concrete data.
use ndfex.Prelude.{
  ℕ, ◌+◌, ◌≡◌, refl, sym, ap, ◌∙◌, inl, inr, Bool, true, false, Option, none, some, List, [], ◌∷◌,
  arith, ◌==◌, if◌then◌else◌, Bool-cases,
}

abbrev pub Map {ℓ} : Type ℓ → Type ℓ
Map Value = List (ℕ × Value)

module _ {ℓ} {Value : Type ℓ} where
  -- `m.find(key)`, with `none` for `m.end()`.
  unfoldable pub lookup : ℕ → Map Value → Option Value
  lookup key [] = none
  lookup key ((k, value) ∷ entries) = if k == key then some value else lookup key entries

  -- `m[key] = value`
  unfoldable pub insert : ℕ → Value → Map Value → Map Value
  insert key value [] = (key, value) ∷ []
  insert key value ((k, old) ∷ entries) =
      let rest = insert key value entries in
      if k == key then (k, value) ∷ entries else (k, old) ∷ rest

  -- `m.erase(key)`
  unfoldable pub erase : ℕ → Map Value → Map Value
  erase key [] = []
  erase key ((k, old) ∷ entries) =
      let rest = erase key entries in if k == key then rest else (k, old) ∷ rest

  pub lookup-insert :
      (key other : ℕ) (value : Value) (entries : Map Value)
      → lookup other (insert key value entries)
        ≡ (if key == other then some value else lookup other entries)
  unfolding lookup insert
  lookup-insert key other value [] = refl
  lookup-insert key other value ((k, old) ∷ entries) =
      ground (arith, lookup-insert key other value entries)

  pub lookup-insert_self :
      (key : ℕ) (value : Value) (entries : Map Value)
      → lookup key (insert key value entries) ≡ some value
  lookup-insert_self key value entries = ground (arith, lookup-insert key key value entries)

  pub lookup-erase :
      (key other : ℕ) (entries : Map Value)
      → lookup other (erase key entries) ≡ (if key == other then none else lookup other entries)
  unfolding lookup erase
  lookup-erase key other [] = ground arith
  lookup-erase key other ((k, old) ∷ entries) = ground (arith, lookup-erase key other entries)

  -- No key occurs twice.
  abbrev pub IsUnique : Map Value → Type ℓ
  IsUnique [] = Unit {ℓ}
  IsUnique ((k, value) ∷ entries) = (lookup k entries ≡ none) × IsUnique entries

  pub insert-IsUnique :
      (key : ℕ) (value : Value) (entries : Map Value)
      → IsUnique entries
      → IsUnique (insert key value entries)
  unfolding lookup insert
  insert-IsUnique key value [] u = (refl, tt)
  insert-IsUnique key value ((k, old) ∷ entries) (fresh, u) = elim (Bool-cases (k == key)) [
    | inl same ↦ rw same (fresh, u)
    | inr other ↦
        rw other
          (ground (arith, lookup-insert key k value entries), insert-IsUnique key value entries u)
  ]

  pub erase-IsUnique :
      (key : ℕ) (entries : Map Value) → IsUnique entries → IsUnique (erase key entries)
  unfolding erase
  erase-IsUnique key [] u = tt
  erase-IsUnique key ((k, old) ∷ entries) (fresh, u) = elim (Bool-cases (k == key)) [
    | inl same ↦ rw same (erase-IsUnique key entries u)
    | inr other ↦
        rw other (ground (arith, lookup-erase key k entries), erase-IsUnique key entries u)
  ]

  -- The sum of a number over all values.
  module _ (weight : Value → ℕ) where
    unfoldable pub sum : Map Value → ℕ
    sum [] = 0
    sum ((k, value) ∷ entries) = weight value + sum entries

    abbrev pub weight_of : Option Value → ℕ
    weight_of none = 0
    weight_of (some value) = weight value

    abbrev pub weight_at : ℕ → Map Value → ℕ
    weight_at key entries = weight_of (lookup key entries)

    weight_at-cons :
        (key k : ℕ) (old : Value) (entries : Map Value) (b : Bool)
        → (k == key) ≡ b
        → weight_at key ((k, old) ∷ entries) ≡ (if b then weight old else weight_at key entries)
    unfolding lookup
    weight_at-cons key k old entries true e =
        ap (λ t. weight_of (if t then some old else lookup key entries)) e
    weight_at-cons key k old entries false e =
        ap (λ t. weight_of (if t then some old else lookup key entries)) e

    pub sum-insert :
        (key : ℕ) (value : Value) (entries : Map Value)
        → sum (insert key value entries) + weight_at key entries ≡ sum entries + weight value
    unfolding lookup insert sum
    sum-insert key value [] = omega arith
    sum-insert key value ((k, old) ∷ entries) = elim (Bool-cases (k == key)) [
      | inl same ↦ rw same (omega (arith, weight_at-cons key k old entries true same))
      | inr other ↦ rw other (
          omega (arith, weight_at-cons key k old entries false other, sum-insert key value entries))
    ]

    sum-erase-none :
        (key : ℕ) (entries : Map Value)
        → lookup key entries ≡ none
        → sum (erase key entries) ≡ sum entries
    unfolding lookup erase sum
    sum-erase-none key [] e = refl
    sum-erase-none key ((k, old) ∷ entries) e = ground (arith, sum-erase-none key entries)

    pub sum-erase :
        (key : ℕ) (entries : Map Value)
        → IsUnique entries
        → sum (erase key entries) + weight_at key entries ≡ sum entries
    unfolding lookup erase sum
    sum-erase key [] u = omega arith
    sum-erase key ((k, old) ∷ entries) (fresh, u) = elim (Bool-cases (k == key)) [
      | inl same ↦
          let k_is : k ≡ key = ground arith in
          let gone = sum-erase-none key entries (ap (λ j. lookup j entries) (sym k_is) ∙ fresh) in
          rw same (omega (arith, weight_at-cons key k old entries true same, gone))
      | inr other ↦
          rw other
            (omega (arith, weight_at-cons key k old entries false other, sum-erase key entries u))
    ]
