-- ===== src/Ledger/Spec/Preserved.antt =====
-- Each specified operation keeps the invariant.
use micro_coin.Base.{
  ℕ, ◌≡◌, refl, Bool, true, false, List, Option, none, some, arith, if◌then◌else◌, All,
}
use micro_coin.Decimal.{Decimal, IsDecimal, nought, ◌⊕◌, ◌⊖◌, ◌≼◌, ◌≺◌, IsStorable}
use micro_coin.Decimal.Laws.{
  group_laws, move_total, le_of_lt, le_of_not_lt, sub_nonneg, add_nonneg, sub-IsStorable,
}
use micro_coin.Models.{Account, Currency}
use micro_coin.Database.Tables.{Tables, set_balance, with_balance, account_by_id, account_of}
use micro_coin.Database.Rows.{
  IsKeyed, set_balance-IsKeyed, set_balance-All, All-found, by_id_of_owner,
}
use micro_coin.Ledger.Spec.{covered, with_account, rebalance, held, released}
use micro_coin.Ledger.Spec.Invariant.{IsSound, IsValid, Reconciles}

module _ {D : Type 0} ⦃dec : Decimal D⦄ where
  pub with_account-some :
      (o : Option (Account D)) (f : Account D → Option (Tables D)) {t : Tables D}
      → with_account o f ≡ some t
      → (a : Account D) × (o ≡ some a) × (f a ≡ some t)
  with_account-some none f h = cc
  with_account-some (some a) f h = (a, refl, h)

module _ {D : Type 0} where
  pub if-some :
      (b : Bool) {t u : Tables D} → (if b then some t else none) ≡ some u → (b ≡ true) × (t ≡ u)
  if-some true h = (refl, cc)
  if-some false h = cc

module _ {D : Type 0} ⦃dec : Decimal D⦄ ⦃laws : IsDecimal D⦄ where
  pub covered_lem : (x a : D) → covered x a ≡ true → (nought ≺ x) × (x ≼ a)
  covered_lem x a h = (ground arith, le_of_not_lt x a (ground arith))

  -- Balances that may be written.
  abbrev pub IsFunded : D → D → Type 0
  IsFunded p q = (nought ≼ p) × (nought ≼ q) × IsStorable p × IsStorable q

  with_balance-IsSound : (p q : D) (a : Account D) → IsFunded p q → IsSound (with_balance p q a)
  with_balance-IsSound p q a (np, nq, sp, sq) = record {
    available_nonneg = rw sp np;
    hold_nonneg = rw sq nq;
    available_storable = rw sp sp;
    hold_storable = rw sq sq;
  }

  pub set_balance-IsSound :
      (id : ℕ) (p q : D) (rs : List (Account D))
      → IsFunded p q
      → IsKeyed rs
      → All IsSound rs
      → All IsSound (set_balance id p q rs)
  set_balance-IsSound id p q rs f =
      set_balance-All IsSound IsSound id p q rs (λ a _ _. with_balance-IsSound p q a f) (λ a n s. s)

  -- New balances with the same sum.
  pub rebalance-IsValid :
      (t : Tables D) (a : Account D) (p q : D)
      → IsValid t
      → account_by_id a.id t.accounts ≡ some a
      → IsFunded p q
      → p ⊕ q ≡ a.balance_available ⊕ a.balance_hold
      → IsValid (rebalance t a.id p q)
  rebalance-IsValid t a p q v found f e = record {
    keyed = set_balance-IsKeyed a.id p q t.accounts v.keyed;
    sound = set_balance-IsSound a.id p q t.accounts f v.keyed v.sound;
    balanced = v.balanced;
    reconciled =
        set_balance-All (Reconciles t.ledger_entries) (Reconciles t.ledger_entries) a.id p q
          t.accounts
          (λ b found' r m. let same : a ≡ b = cc (found, found') in rw (f.2, f.3, e, same) (r m))
          (λ b n r. r) v.keyed v.reconciled;
  }

  -- Holding an amount that fits its column keeps the invariant.
  pub held-IsValid :
      (user : ℕ) (c : Currency) (x : D) (t t' : Tables D)
      → IsValid t
      → IsStorable x
      → held user c x t ≡ some t'
      → IsValid t'
  held-IsValid user c x t t' v s h =
      let (a, owned, rest) = with_account-some (account_of user c t.accounts) _ h in
      let (cov, e) = if-some (covered x a.balance_available) rest in
      let (pos, enough) = covered_lem x a.balance_available cov in
      let found = by_id_of_owner user c t.accounts v.keyed owned in
      let ok = All-found IsSound a.id t.accounts v.sound found in
      rw (← e) (
        rebalance-IsValid t a (a.balance_available ⊖ x) (a.balance_hold ⊕ x) v found
          (
            sub_nonneg a.balance_available x enough,
            add_nonneg a.balance_hold x ok.hold_nonneg (le_of_lt nought x pos),
            sub-IsStorable a.balance_available x ok.available_storable s,
            laws.numeric-add a.balance_hold x ok.hold_storable s,
          )
          (move_total a.balance_available a.balance_hold x))

  -- Releasing an amount that fits its column keeps the invariant.
  pub released-IsValid :
      (user : ℕ) (c : Currency) (x : D) (t t' : Tables D)
      → IsValid t
      → IsStorable x
      → released user c x t ≡ some t'
      → IsValid t'
  released-IsValid user c x t t' v s h =
      let (a, owned, rest) = with_account-some (account_of user c t.accounts) _ h in
      let (cov, e) = if-some (covered x a.balance_hold) rest in
      let (pos, enough) = covered_lem x a.balance_hold cov in
      let found = by_id_of_owner user c t.accounts v.keyed owned in
      let ok = All-found IsSound a.id t.accounts v.sound found in
      rw (← e) (
        rebalance-IsValid t a (a.balance_available ⊕ x) (a.balance_hold ⊖ x) v found
          (
            add_nonneg a.balance_available x ok.available_nonneg (le_of_lt nought x pos),
            sub_nonneg a.balance_hold x enough,
            laws.numeric-add a.balance_available x ok.available_storable s,
            sub-IsStorable a.balance_hold x ok.hold_storable s,
          )
          (simp group_laws))
