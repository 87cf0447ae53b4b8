-- ===== src/Decimal/Laws.antt =====
-- Consequences of the laws of `IsDecimal` that the proofs use.
use micro_coin.Base.{◌≡◌, refl, sym, ap, ◌∙◌, ◌⊎◌, arith}
use micro_coin.Decimal.{Decimal, IsDecimal, nought, ◌⊕◌, ◌⊖◌, negate, ◌≺◌, ◌≼◌, IsStorable}

module _ {D : Type 0} ⦃dec : Decimal D⦄ ⦃laws : IsDecimal D⦄ where
  pub add_comm : (a b : D) → a ⊕ b ≡ b ⊕ a
  add_comm = laws.add_comm

  pub add_assoc : (a b c : D) → a ⊕ b ⊕ c ≡ a ⊕ (b ⊕ c)
  add_assoc = laws.add_assoc

  pub sub-eq-add : (a b : D) → a ⊖ b ≡ a ⊕ negate b
  sub-eq-add = laws.sub-eq-add

  pub add-neg : (a : D) → a ⊕ negate a ≡ nought
  add-neg = laws.add-neg

  pub add-nought : (a : D) → a ⊕ nought ≡ a
  add-nought = laws.add-nought

  pub add_left_comm : (a b c : D) → a ⊕ (b ⊕ c) ≡ b ⊕ (a ⊕ c)
  add_left_comm a b c = rw (← add_assoc a b c, add_comm a b, add_assoc b a c)

  pub nought-add : (a : D) → nought ⊕ a ≡ a
  nought-add a = add_comm nought a ∙ add-nought a

  pub add-neg_left : (a b : D) → a ⊕ (negate a ⊕ b) ≡ b
  add-neg_left a b = rw (← add_assoc a (negate a) b, add-neg a) (nought-add b)

-- With these `simp` brings a sum to one form.
pub ruleset group_laws =
    (sub-eq-add, add_comm, add_assoc, add_left_comm, add-neg, add-neg_left, add-nought, nought-add)

module _ {D : Type 0} ⦃dec : Decimal D⦄ ⦃laws : IsDecimal D⦄ where
  pub sub_add_cancel : (a b : D) → a ⊖ b ⊕ b ≡ a
  sub_add_cancel a b = simp group_laws

  pub add_sub_cancel : (a b : D) → a ⊕ b ⊖ b ≡ a
  add_sub_cancel a b = simp group_laws

  -- Moving an amount from one number to another keeps their sum.
  pub move_total : (a h x : D) → a ⊖ x ⊕ (h ⊕ x) ≡ a ⊕ h
  move_total a h x = simp group_laws

  pub move_back : (a h x : D) → (a ⊕ x) ⊕ (h ⊖ x) ≡ a ⊕ h
  move_back a h x = simp group_laws

  pub add_cancel : (a b c : D) → a ⊕ c ≡ b ⊕ c → a ≡ b
  add_cancel a b c h = cc (add_sub_cancel a c, add_sub_cancel b c)

  pub neg-neg : (a : D) → negate (negate a) ≡ a
  neg-neg a =
      add_cancel (negate (negate a)) a (negate a)
        (add_comm _ _ ∙ add-neg (negate a) ∙ sym (add-neg a))

  pub neg-nought : negate nought ≡ dec.nought
  neg-nought = sym (nought-add (negate nought)) ∙ add-neg nought

  pub lt_irrefl : (a : D) → ¬ (a ≺ a)
  lt_irrefl a h = cc (h, (laws.cmp-eq a a).1 refl)

  pub le_cases : (a b : D) → a ≼ b → (a ≺ b) ⊎ (a ≡ b)
  le_cases a b h = ground (arith, (laws.cmp-eq a b).0)

  pub le_of_lt : (a b : D) → a ≺ b → a ≼ b
  le_of_lt a b h = ground arith

  pub le_refl : (a : D) → a ≼ a
  le_refl a = ground (arith, (laws.cmp-eq a a).1)

  pub lt_of_lt_of_le : (a b c : D) → a ≺ b → b ≼ c → a ≺ c
  lt_of_lt_of_le a b c h k = ground (arith, le_cases b c k, laws.lt_trans a b c h)

  pub le_trans : (a b c : D) → a ≼ b → b ≼ c → a ≼ c
  le_trans a b c h k = ground (arith, le_cases a b h, le_cases b c k, laws.lt_trans a b c)

  pub le_of_not_lt : (a b : D) → ¬ (b ≺ a) → a ≼ b
  le_of_not_lt a b h g = h ((laws.cmp_swap a b).0 g)

  pub cmp-sub : (a x : D) → dec.cmp nought (a ⊖ x) ≡ dec.cmp x a
  cmp-sub a x = sym (laws.cmp-add nought (a ⊖ x) x) ∙ rw (nought-add x, sub_add_cancel a x)

  pub sub_nonneg : (a x : D) → x ≼ a → nought ≼ a ⊖ x
  sub_nonneg a x h = rw (cmp-sub a x) h

  pub sub_pos : (a x : D) → x ≺ a → nought ≺ a ⊖ x
  sub_pos a x h = rw (cmp-sub a x) h

  pub le_add : (a b : D) → nought ≼ b → a ≼ a ⊕ b
  le_add a b h = rw (← cmp-sub (a ⊕ b) a) (rw (add_comm a b, add_sub_cancel b a) h)

  pub add_nonneg : (a b : D) → nought ≼ a → nought ≼ b → nought ≼ a ⊕ b
  add_nonneg a b h k = le_trans nought a (a ⊕ b) h (le_add a b k)

  pub sub-IsStorable : (a b : D) → IsStorable a → IsStorable b → IsStorable (a ⊖ b)
  sub-IsStorable a b h k =
      rw (sub-eq-add a b) (laws.numeric-add a (negate b) h (laws.numeric-neg b ∙ ap negate k))
