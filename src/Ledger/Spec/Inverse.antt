-- ===== src/Ledger/Spec/Inverse.antt =====
-- A release undoes a hold.
use micro_coin.Base.{ℕ, ◌≡◌, refl, subst, List, [], ◌∷◌, some, arith, true}
use micro_coin.Decimal.{Decimal, IsDecimal, nought, ◌⊕◌, ◌⊖◌, IsStorable, ◌≼◌, ◌≺◌}
use micro_coin.Decimal.Laws.{sub_add_cancel, add_sub_cancel, le_add, sub-IsStorable}
use micro_coin.Models.{Account, Currency}
use micro_coin.Database.Tables.{Tables, set_balance, account_by_id, account_of, with_balance}
use micro_coin.Database.Rows.{by_id_of_owner, All-found, IsKeyed, set_balance-missing}
use micro_coin.Ledger.Spec.{held, released, covered}
use micro_coin.Ledger.Spec.Invariant.{IsSound, IsValid}
use micro_coin.Ledger.Spec.Preserved.{with_account-some, if-some, covered_lem}

module _ {D : Type 0} ⦃dec : Decimal D⦄ where
  -- The same owner still finds the same row, with its new balances.
  account_of-set_balance :
      (user : ℕ) (c : Currency) (a : Account D) (p q : D) (rs : List (Account D))
      → IsKeyed rs
      → account_of user c rs ≡ some a
      → account_of user c (set_balance a.id p q rs) ≡ some (with_balance p q a)
  account_of-set_balance user c a p q [] k h = cc
  account_of-set_balance user c a p q (b ∷ rs) k h =
      ground (arith, account_of-set_balance user c a p q rs k.1, by_id_of_owner user c rs k.1)

  -- Writing back the old balances restores the rows.
  set_balance-set_balance :
      (a : Account D) (p q : D) (rs : List (Account D))
      → IsKeyed rs
      → account_by_id a.id rs ≡ some a
      → IsStorable a.balance_available
      → IsStorable a.balance_hold
      → set_balance a.id a.balance_available a.balance_hold (set_balance a.id p q rs) ≡ rs
  set_balance-set_balance a p q [] k h sa sh = refl
  set_balance-set_balance a p q (b ∷ rs) k h sa sh = ground (
    arith,
    set_balance-missing a.id p q rs,
    set_balance-missing a.id a.balance_available a.balance_hold rs,
    set_balance-set_balance a p q rs k.1,
  )

module _ {D : Type 0} ⦃dec : Decimal D⦄ ⦃laws : IsDecimal D⦄ where
  covered_of : (x a : D) → nought ≺ x → x ≼ a → covered x a ≡ true
  covered_of x a pos enough = ground (arith, (laws.cmp_swap x a).1)

  -- Releasing what was just held restores the tables exactly.
  pub released-held :
      (user : ℕ) (c : Currency) (x : D) (t t' : Tables D)
      → IsValid t
      → IsStorable x
      → held user c x t ≡ some t'
      → released user c x t' ≡ some t
  released-held user c x t t' v s h =
      let (a, owned, rest) = with_account-some (account_of user c t.accounts) _ h in
      let (cov, e) = if-some (covered x a.balance_available) rest in
      let (pos, enough) = covered_lem x a.balance_available cov in
      let found = by_id_of_owner user c t.accounts v.keyed owned in
      let ok = All-found IsSound a.id t.accounts v.sound found in
      let p = a.balance_available ⊖ x in
      let q = a.balance_hold ⊕ x in
      let sp = sub-IsStorable a.balance_available x ok.available_storable s in
      let sq = laws.numeric-add a.balance_hold x ok.hold_storable s in
      let cov' : covered x q ≡ true =
        covered_of x q pos
          (rw (laws.add_comm a.balance_hold x) (le_add x a.balance_hold ok.hold_nonneg)) in
      let restored =
        set_balance-set_balance a p q t.accounts v.keyed found ok.available_storable
          ok.hold_storable in
      let found' = account_of-set_balance user c a p q t.accounts v.keyed owned in
      subst (λ u. released user c x u ≡ some t) e
        (rw
          (
            found',
            sp,
            sq,
            cov',
            sub_add_cancel a.balance_available x,
            add_sub_cancel a.balance_hold x,
            restored,
          )
          refl)
