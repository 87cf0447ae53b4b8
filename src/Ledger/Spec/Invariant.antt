-- ===== src/Ledger/Spec/Invariant.antt =====
-- The invariant of the tables that every operation of the ledger keeps, and its parts.
use micro_coin.Base.{
  ℕ, ◌≡◌, ◌≢◌, sym, ap, true, false, List, [], ◌∷◌, ◌++◌, arith, ◌==◌, if◌then◌else◌, All,
}
use micro_coin.Decimal.{Decimal, IsDecimal, nought, ◌⊕◌, ◌≼◌, IsStorable}
use micro_coin.Decimal.Laws.{add_comm, add_assoc, add-nought}
use micro_coin.Models.{Account, LedgerEntry, uuid_nil}
use micro_coin.Database.Tables.{Tables}
use micro_coin.Database.Rows.{IsKeyed}

module _ {D : Type 0} ⦃dec : Decimal D⦄ where
  abbrev pub sum_entries : (LedgerEntry D → D) → List (LedgerEntry D) → D
  sum_entries f [] = nought
  sum_entries f (e ∷ es) = f e ⊕ sum_entries f es

  abbrev pub amount_to : ℕ → LedgerEntry D → D
  amount_to id e = if e.account_id == id then e.amount else nought

  -- All that the ledger has posted to an account.
  abbrev pub posted : ℕ → List (LedgerEntry D) → D
  posted id = sum_entries (amount_to id)

  -- Balances are not negative and fit their columns.
  pub record IsSound (a : Account D) : Type 0 where
    pub available_nonneg : nought ≼ a.balance_available
    pub hold_nonneg : nought ≼ a.balance_hold
    pub available_storable : IsStorable a.balance_available
    pub hold_storable : IsStorable a.balance_hold

  -- An account holds what the ledger has posted to it. The equity account `uuid.Nil` is left out:
  -- no operation writes its balance.
  abbrev pub Reconciles : List (LedgerEntry D) → Account D → Type 0
  Reconciles es a = a.id ≢ uuid_nil → a.balance_available ⊕ a.balance_hold ≡ posted a.id es

  pub record IsValid (t : Tables D) : Type 0 where
    pub keyed : IsKeyed t.accounts
    pub sound : All IsSound t.accounts
    pub balanced : sum_entries (λ e. e.amount) t.ledger_entries ≡ nought
    pub reconciled : All (Reconciles t.ledger_entries) t.accounts

module _ {D : Type 0} ⦃dec : Decimal D⦄ ⦃laws : IsDecimal D⦄ where
  pub sum_entries-append :
      (f : LedgerEntry D → D) (es : List (LedgerEntry D)) (e : LedgerEntry D)
      → sum_entries f (es ++ e ∷ []) ≡ sum_entries f es ⊕ f e
  sum_entries-append f [] e = add_comm (f e) nought
  sum_entries-append f (d ∷ es) e =
      rw (sum_entries-append f es e) (sym (add_assoc (f d) (sum_entries f es) (f e)))

  -- An entry to another account changes nothing for this one.
  pub append-Reconciles :
      (es : List (LedgerEntry D)) (e : LedgerEntry D) (a : Account D)
      → a.id ≢ e.account_id
      → Reconciles es a
      → Reconciles (es ++ e ∷ []) a
  append-Reconciles es e a n r m =
      let test : (e.account_id == a.id) ≡ false = ground arith in
      rw (sum_entries-append (amount_to a.id) es e, test, add-nought) (r m)

  -- An entry to the account itself is met by a balance that grows by its amount.
  pub credit-Reconciles :
      (es : List (LedgerEntry D)) (e : LedgerEntry D) (a b : Account D)
      → a.id ≡ e.account_id
      → b.id ≡ a.id
      → b.balance_available ⊕ b.balance_hold ≡ a.balance_available ⊕ a.balance_hold ⊕ e.amount
      → Reconciles es a
      → Reconciles (es ++ e ∷ []) b
  credit-Reconciles es e a b own same grown r m =
      let test : (e.account_id == a.id) ≡ true = ground arith in
      rw (same, sum_entries-append (amount_to a.id) es e, test, grown)
        (ap (λ s. s ⊕ e.amount) (r (rw (← same) m)))
