-- ===== src/Decimal.antt =====
-- What the program uses of `decimal.Decimal` (github.com/shopspring/decimal, not part of the
-- repository), and of the NUMERIC(30,10) columns that hold amounts: an interface of operations and
-- its documented laws. A value of `D` stands for the number, so `≡` is numeric equality.
pub mod Laws
pub mod Instance
use micro_coin.Base.{Bool, true, false, Ordering, String, ◌≡◌, ◌≢◌, ◌⊎◌, ◌↔◌}

pub record Decimal (D : Type 0) : Type 0 where
  pub nought : D
  pub add : D → D → D
  pub sub : D → D → D
  pub mul : D → D → D
  pub quo : D → D → D
  pub neg : D → D
  -- `Cmp`
  pub cmp : D → D → Ordering
  -- `String`
  pub text : D → String
  -- the value that a NUMERIC(30,10) column keeps of a number
  pub numeric : D → D

module _ {D : Type 0} ⦃dec : Decimal D⦄ where
  infixl 65 ◌⊕◌ ◌⊖◌
  infixl 70 ◌⊗◌
  infix 50 ◌≺◌ ◌≼◌
  abbrev pub nought : D
  nought = dec.nought

  abbrev pub ◌⊕◌ : D → D → D
  ◌⊕◌ = dec.add

  abbrev pub ◌⊖◌ : D → D → D
  ◌⊖◌ = dec.sub

  abbrev pub ◌⊗◌ : D → D → D
  ◌⊗◌ = dec.mul

  abbrev pub negate : D → D
  negate = dec.neg

  -- `LessThan`, `LessThanOrEqual`, `GreaterThan`, `Equal`, `IsZero` and `Min`, which are documented
  -- by the order of the numbers.
  abbrev pub less_than : D → D → Bool
  less_than a b = elim (dec.cmp a b) [ Ordering.lt ↦ true | _ ↦ false ]

  abbrev pub less_than_or_equal : D → D → Bool
  less_than_or_equal a b = elim (dec.cmp a b) [ Ordering.gt ↦ false | _ ↦ true ]

  abbrev pub greater_than : D → D → Bool
  greater_than a b = elim (dec.cmp a b) [ Ordering.gt ↦ true | _ ↦ false ]

  abbrev pub equal : D → D → Bool
  equal a b = elim (dec.cmp a b) [ Ordering.eq ↦ true | _ ↦ false ]

  abbrev pub is_zero : D → Bool
  is_zero a = equal a dec.nought

  abbrev pub min_of : D → D → D
  min_of a b = elim (dec.cmp a b) [ Ordering.gt ↦ b | _ ↦ a ]

  abbrev pub ◌≺◌ : D → D → Type 0
  a ≺ b = dec.cmp a b ≡ Ordering.lt

  abbrev pub ◌≼◌ : D → D → Type 0
  a ≼ b = dec.cmp a b ≢ Ordering.gt

  -- the number has at most ten decimal places
  abbrev pub IsStorable : D → Type 0
  IsStorable a = dec.numeric a ≡ a

-- Exact sums and products with the usual order; rounding to a column's ten places keeps what has
-- ten places and is symmetric round zero.
pub record IsDecimal (D : Type 0) ⦃dec : Decimal D⦄ : Type 0 where
  pub add_comm : (a b : D) → a ⊕ b ≡ b ⊕ a
  pub add_assoc : (a b c : D) → a ⊕ b ⊕ c ≡ a ⊕ (b ⊕ c)
  pub add-nought : (a : D) → a ⊕ dec.nought ≡ a
  pub add-neg : (a : D) → a ⊕ dec.neg a ≡ dec.nought
  pub sub-eq-add : (a b : D) → a ⊖ b ≡ a ⊕ dec.neg b
  pub cmp-eq : (a b : D) → (dec.cmp a b ≡ Ordering.eq) ↔ (a ≡ b)
  pub cmp_swap : (a b : D) → (dec.cmp a b ≡ Ordering.gt) ↔ (dec.cmp b a ≡ Ordering.lt)
  pub lt_trans : (a b c : D) → a ≺ b → b ≺ c → a ≺ c
  pub cmp-add : (a b c : D) → dec.cmp (a ⊕ c) (b ⊕ c) ≡ dec.cmp a b
  pub mul_pos : (a b : D) → dec.nought ≺ a → dec.nought ≺ b → dec.nought ≺ a ⊗ b
  pub text_injective : (a b : D) → dec.text a ≡ dec.text b → a ≡ b
  pub numeric-numeric : (a : D) → IsStorable (dec.numeric a)
  pub numeric-neg : (a : D) → dec.numeric (dec.neg a) ≡ dec.neg (dec.numeric a)
  pub numeric-add : (a b : D) → IsStorable a → IsStorable b → IsStorable (a ⊕ b)
