-- ===== src/Rate/Number.antt =====
-- What the scripts of internal/rate/limiter.go use of the numbers of Lua, which are doubles: an
-- interface of operations, and laws that hold of doubles as long as nothing overflows. Whole numbers are
-- exact up to `whole`.
use micro_coin.Base.{ℕ, suc, ◌≤◌, ◌≡◌, Bool, true, false, ltb, if◌then◌else◌}

pub record Number (R : Type 0) : Type 0 where
  pub of_nat : ℕ → R
  pub add : R → R → R
  pub sub : R → R → R
  pub mul : R → R → R
  pub quo : R → R → R
  -- `a < b`
  pub less : R → R → Bool
  -- `math.floor`, of a number that is not negative
  pub floor : R → ℕ
  -- what `tonumber` reads of the text that a field of a hash keeps of a number
  pub kept : R → R

-- `math.min(a, b)`
abbrev pub min_number : {R : Type 0} ⦃num : Number R⦄ → R → R → R
min_number ⦃num⦄ a b = if num.less b a then b else a

pub record IsNumber (R : Type 0) ⦃num : Number R⦄ : Type 0 where
  pub whole : ℕ
  pub less_irrefl : (a : R) → num.less a a ≡ false
  pub less_trans : (a b c : R) → num.less a b ≡ false → num.less b c ≡ false → num.less a c ≡ false
  pub less_asym : (a b : R) → num.less a b ≡ true → num.less b a ≡ false
  pub sub_self :
      (n d : ℕ)
      → num.quo (num.sub (num.of_nat n) (num.of_nat n)) (num.of_nat (suc d)) ≡ num.of_nat 0
  pub zero_mul :
      (m n : ℕ)
      → num.mul (num.of_nat 0) (num.quo (num.of_nat m) (num.of_nat (suc n))) ≡ num.of_nat 0
  pub add_zero : (a : R) → num.add a (num.of_nat 0) ≡ a
  pub sub_nonneg :
      (m n d : ℕ)
      → m ≤ n
      → num.less
          (num.quo (num.sub (num.of_nat n) (num.of_nat m)) (num.of_nat (suc d)))
          (num.of_nat 0)
        ≡ false
  pub quo_nonneg :
      (m n : ℕ) → num.less (num.quo (num.of_nat m) (num.of_nat (suc n))) (num.of_nat 0) ≡ false
  pub mul_nonneg :
      (a b : R)
      → num.less a (num.of_nat 0) ≡ false
      → num.less b (num.of_nat 0) ≡ false
      → num.less (num.mul a b) (num.of_nat 0) ≡ false
  pub add_nonneg :
      (a b : R)
      → num.less a (num.of_nat 0) ≡ false
      → num.less b (num.of_nat 0) ≡ false
      → num.less (num.add a b) (num.of_nat 0) ≡ false
  -- a number from 1 on is still not negative less 1, and less 1 it is not larger
  pub sub_one_nonneg :
      (a : R)
      → num.less a (num.of_nat 1) ≡ false
      → num.less (num.sub a (num.of_nat 1)) (num.of_nat 0) ≡ false
  pub sub_one_le : (a : R) → num.less a (num.sub a (num.of_nat 1)) ≡ false
  pub sub_one : (n : ℕ) → suc n ≤ whole → num.sub (num.of_nat (suc n)) (num.of_nat 1) ≡ num.of_nat n
  pub less_of_nat :
      (m n : ℕ) → m ≤ whole → n ≤ whole → num.less (num.of_nat m) (num.of_nat n) ≡ ltb m n
  pub one_whole : 1 ≤ whole
  pub floor_of_nat : (n : ℕ) → n ≤ whole → num.floor (num.of_nat n) ≡ n
  -- the text of a number is a rounding that keeps whole numbers
  pub kept_of_nat : (n : ℕ) → n ≤ whole → num.kept (num.of_nat n) ≡ num.of_nat n
  pub kept_mono : (a b : R) → num.less a b ≡ false → num.less (num.kept a) (num.kept b) ≡ false
