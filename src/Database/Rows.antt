-- ===== src/Database/Rows.antt =====
-- Facts about the rows of `accounts`: what `set_balance` does to sums and to predicates over them.
use micro_coin.Base.{
  ℕ, ◌≡◌, ◌≢◌, refl, true, false, List, [], ◌∷◌, Option, none, some, arith, ◌==◌, if◌then◌else◌,
  All, ℕ-cases, inl, inr,
}
use micro_coin.Decimal.{Decimal, IsDecimal, nought, ◌⊕◌}
use micro_coin.Decimal.Laws.{group_laws, add_assoc}
use micro_coin.Models.{Account, Currency}
use micro_coin.Database.Tables.{set_balance, with_balance, account_by_id, account_of}

-- `id` is the primary key.
abbrev pub IsKeyed : {D : Type 0} → List (Account D) → Type 0
IsKeyed [] = Unit
IsKeyed (a ∷ rs) = (account_by_id a.id rs ≡ none) × IsKeyed rs

some-none {ℓ} : {A : Type ℓ} {o : Option A} {a : A} → o ≡ some a → o ≡ none → ⊥
some-none h k = cc

module _ {D : Type 0} where
  -- The row that a query by owner finds is the row that a query by its key finds.
  pub by_id_of_owner :
      (user : ℕ) (c : Currency) {a : Account D} (rs : List (Account D))
      → IsKeyed rs
      → account_of user c rs ≡ some a
      → account_by_id a.id rs ≡ some a
  by_id_of_owner user c [] k h = cc
  by_id_of_owner user c {a} (b ∷ rs) k h = ground (arith, by_id_of_owner user c {a = a} rs k.1)

  pub id_of_found :
      (id : ℕ) {a : Account D} (rs : List (Account D)) → account_by_id id rs ≡ some a → a.id ≡ id
  id_of_found id [] h = cc
  id_of_found id {a} (b ∷ rs) h = ground (arith, id_of_found id {a = a} rs)

module _ {D : Type 0} ⦃dec : Decimal D⦄ where
  abbrev pub sum_over : (Account D → D) → List (Account D) → D
  sum_over f [] = nought
  sum_over f (a ∷ rs) = f a ⊕ sum_over f rs

  pub account_by_id-set_balance :
      (j id : ℕ) (p q : D) (rs : List (Account D))
      → account_by_id j (set_balance id p q rs) ≡ (
          if j == id
          then elim (account_by_id j rs) [ none ↦ none | some a ↦ some (with_balance p q a) ]
          else account_by_id j rs)
  account_by_id-set_balance j id p q [] = ground arith
  account_by_id-set_balance j id p q (a ∷ rs) =
      ground (arith, account_by_id-set_balance j id p q rs)

  pub set_balance-IsKeyed :
      (id : ℕ) (p q : D) (rs : List (Account D)) → IsKeyed rs → IsKeyed (set_balance id p q rs)
  set_balance-IsKeyed id p q [] k = tt
  set_balance-IsKeyed id p q (a ∷ rs) k =
      ground (arith, set_balance-IsKeyed id p q rs k.1, account_by_id-set_balance a.id id p q rs)

  pub set_balance-missing :
      (id : ℕ) (p q : D) (rs : List (Account D))
      → account_by_id id rs ≡ none
      → set_balance id p q rs ≡ rs
  set_balance-missing id p q [] h = refl
  set_balance-missing id p q (a ∷ rs) h = ground (arith, set_balance-missing id p q rs)

  -- To pass from `P` on the old rows to `Q` on the new ones, only the row that changes needs work.
  pub set_balance-All :
      (P Q : Account D → Type 0) (id : ℕ) (p q : D) (rs : List (Account D))
      → ((a : Account D) → account_by_id id rs ≡ some a → P a → Q (with_balance p q a))
      → ((a : Account D) → a.id ≢ id → P a → Q a)
      → IsKeyed rs
      → All P rs
      → All Q (set_balance id p q rs)
  set_balance-All P Q id p q [] new old k h = tt
  set_balance-All P Q id p q (a ∷ rs) new old k h = elim (ℕ-cases a.id id) [
    | inl e ↦
        let test : (a.id == id) ≡ true = ground arith in
        let absent : account_by_id id rs ≡ none = rw e at k.0 in
        rw test (
          new a (ground arith) h.0,
          set_balance-All P Q id p q rs (λ b found. absurd (some-none found absent)) old k.1 h.1,
        )
    | inr n ↦
        let test : (a.id == id) ≡ false = ground arith in
        rw test
          (old a n h.0, set_balance-All P Q id p q rs (λ b found. new b (ground arith)) old k.1 h.1)
  ]

module _ {D : Type 0} ⦃dec : Decimal D⦄ ⦃laws : IsDecimal D⦄ where
  -- One row changes, so the sum changes by what that row contributed.
  pub sum_over-set_balance :
      (f : Account D → D) (id : ℕ) (p q : D) (a : Account D) (rs : List (Account D))
      → IsKeyed rs
      → account_by_id id rs ≡ some a
      → sum_over f (set_balance id p q rs) ⊕ f a ≡ sum_over f rs ⊕ f (with_balance p q a)
  sum_over-set_balance f id p q a [] k h = cc
  sum_over-set_balance f id p q a (b ∷ rs) k h = elim (ℕ-cases b.id id) [
    | inl e ↦
        let test : (b.id == id) ≡ true = ground arith in
        let absent : account_by_id id rs ≡ none = rw e at k.0 in
        let same : b ≡ a = ground arith in
        rw (test, set_balance-missing id p q rs absent, same) (simp group_laws)
    | inr n ↦
        let test : (b.id == id) ≡ false = ground arith in
        let later : account_by_id id rs ≡ some a = ground arith in
        rw (test, add_assoc (f b), add_assoc (f b), sum_over-set_balance f id p q a rs k.1 later)
  ]

module _ {D : Type 0} where
  pub All-found :
      (P : Account D → Type 0) (id : ℕ) {a : Account D} (rs : List (Account D))
      → All P rs
      → account_by_id id rs ≡ some a
      → P a
  All-found P id [] h e = absurd (some-none e refl)
  All-found P id {a} (b ∷ rs) h e = elim (ℕ-cases b.id id) [
    | inl m ↦ let same : b ≡ a = ground arith in rw (← same) h.0
    | inr n ↦ All-found P id rs h.1 (ground arith)
  ]
