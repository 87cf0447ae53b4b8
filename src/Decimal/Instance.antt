-- ===== src/Decimal/Instance.antt =====
-- The interface can be met: by the whole numbers, with a text in tally marks. This instance serves
-- the tests.
use Prim.Native.String.{String}
use micro_coin.Base.{ℕ, zero, suc, ◌+◌, ◌*◌, ◌≡◌, refl, ap, Ordering, arith}
use micro_coin.Base.Int.{
  ℤ, pos, negsuc, ◌+ℤ◌, ◌-ℤ◌, ◌*ℤ◌, compare_ℤ, int_laws, +ℤ_parts, eq_of_parts,
}
use micro_coin.Decimal.{Decimal, IsDecimal}

abbrev tally : ℕ → String
tally zero = ""
tally (suc n) = String.◌∷◌ "|" (tally n)

-- Distinct integers have distinct texts: an even number of marks, or an odd one.
abbrev print : ℤ → String
print (pos n) = tally (2 * n)
print (negsuc n) = tally (2 * n + 1)

instance abbrev pub int_decimal : Decimal ℤ
int_decimal = record {
  nought = pos 0;
  add = ◌+ℤ◌;
  sub = ◌-ℤ◌;
  mul = ◌*ℤ◌;
  quo = λ a b. a;
  neg = λ a. pos 0 -ℤ a;
  cmp = compare_ℤ;
  text = print;
  numeric = λ a. a;
}

cmp_add_ℤ : (a b c : ℤ) → compare_ℤ (a +ℤ c) (b +ℤ c) ≡ compare_ℤ a b
cmp_add_ℤ a b c = ground (arith, +ℤ_parts a c, +ℤ_parts b c)

cmp_eq_ℤ : (a b : ℤ) → (compare_ℤ a b ≡ Ordering.eq) → a ≡ b
cmp_eq_ℤ a b h = ground (arith, eq_of_parts a b)

lt_trans_ℤ :
    (a b c : ℤ)
    → compare_ℤ a b ≡ Ordering.lt
    → compare_ℤ b c ≡ Ordering.lt
    → compare_ℤ a c ≡ Ordering.lt
lt_trans_ℤ a b c h k = ground arith

mul_pos_ℤ :
    (a b : ℤ)
    → compare_ℤ (pos 0) a ≡ Ordering.lt
    → compare_ℤ (pos 0) b ≡ Ordering.lt
    → compare_ℤ (pos 0) (a *ℤ b) ≡ Ordering.lt
unfolding ◌*ℤ◌
mul_pos_ℤ (pos (suc a)) (pos (suc b)) h k = grind (arith)
mul_pos_ℤ (pos zero) b h k = ground arith
mul_pos_ℤ (negsuc a) b h k = ground arith
mul_pos_ℤ (pos (suc a)) (pos zero) h k = ground arith
mul_pos_ℤ (pos (suc a)) (negsuc b) h k = ground arith

tally_injective : (n m : ℕ) → tally n ≡ tally m → n ≡ m
tally_injective zero zero h = refl
tally_injective zero (suc m) h = cc
tally_injective (suc n) zero h = cc
tally_injective (suc n) (suc m) h = ap suc (tally_injective n m (cc))

print_injective : (a b : ℤ) → print a ≡ print b → a ≡ b
print_injective (pos n) (pos m) h = ap pos (omega (arith, tally_injective (2 * n) (2 * m) h))
print_injective (pos n) (negsuc m) h = absurd (omega (arith, tally_injective (2 * n) (2 * m + 1) h))
print_injective (negsuc n) (pos m) h = absurd (omega (arith, tally_injective (2 * n + 1) (2 * m) h))
print_injective (negsuc n) (negsuc m) h =
    ap negsuc (omega (arith, tally_injective (2 * n + 1) (2 * m + 1) h))

instance pub int_IsDecimal : IsDecimal ℤ
int_IsDecimal = record {
  add_comm = λ a b. omega int_laws;
  add_assoc = λ a b c. omega int_laws;
  add-nought = λ a. omega int_laws;
  add-neg = λ a. omega int_laws;
  sub-eq-add = λ a b. omega int_laws;
  cmp-eq = λ a b. (cmp_eq_ℤ a b, λ e. rw e (ground arith));
  cmp_swap = λ a b. ground arith;
  lt_trans = lt_trans_ℤ;
  cmp-add = cmp_add_ℤ;
  mul_pos = mul_pos_ℤ;
  text_injective = print_injective;
  numeric-numeric = λ a. refl;
  numeric-neg = λ a. refl;
  numeric-add = λ a b h k. refl;
}
