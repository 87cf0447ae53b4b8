-- ===== src/Ledger/Journal.antt =====
-- internal/ledger/ledger.go: `LedgerRepository.CreateJournal` and `ValidateJournalBalance`.
pub mod Balance
pub mod Listings
use micro_coin.Base.{ℕ, List, [], ◌∷◌, Bool, true, false, String, ◌==◌, if◌then◌else◌}
use micro_coin.Decimal.{Decimal, nought, ◌⊕◌, is_zero}
use micro_coin.Models.{LedgerEntry, Currency}
use micro_coin.Database.Tables.{insert_entry}
use micro_coin.Database.World.{
  Action, Tx, message, ◌>>=◌, ◌>>◌, pure, fail_if, wrapped, call_driver, gets, exec,
}

-- A `LedgerEntry` literal, with the zero value in the fields that it leaves out.
abbrev pub entry_of : {D : Type 0} → ℕ → ℕ → D → Currency → String → ℕ → LedgerEntry D
entry_of journal account amount currency ref_type ref_id = record {
  id = 0;
  journal_id = journal;
  account_id = account;
  amount = amount;
  currency = currency;
  ref_type = ref_type;
  ref_id = ref_id;
  created_at = 0;
}

module _ {D : Type 0} ⦃dec : Decimal D⦄ where
  -- `for _, entry := range entries { total = total.Add(entry.Amount) }`
  unfoldable pub add_amounts : D → List (LedgerEntry D) → D
  add_amounts total [] = total
  add_amounts total (entry ∷ entries) = add_amounts (total ⊕ entry.amount) entries

  abbrev pub is_empty : List (LedgerEntry D) → Bool
  is_empty [] = true
  is_empty (entry ∷ entries) = false

  unfoldable pub insert_entries : Tx D → List (LedgerEntry D) → Action D (Tx D)
  insert_entries tx [] = pure tx
  insert_entries tx (entry ∷ entries) =
      wrapped "failed to create ledger entry" (exec tx (insert_entry entry)) >>= λ tx'.
      insert_entries tx' entries

  unfoldable pub create_journal : Tx D → List (LedgerEntry D) → Action D (Tx D)
  unfolding add_amounts insert_entries
  create_journal tx entries = do
    fail_if (is_empty entries) (message "journal must have at least one entry")
    fail_if (if is_zero (add_amounts nought entries) then false else true)
        (message "journal is not balanced")
    insert_entries tx entries

  -- SELECT COALESCE(SUM(amount), 0) FROM ledger_entries WHERE journal_id = $1
  unfoldable pub sum_of_journal : ℕ → List (LedgerEntry D) → D
  sum_of_journal journal [] = nought
  sum_of_journal journal (e ∷ es) =
      if e.journal_id == journal
      then e.amount ⊕ sum_of_journal journal es
      else sum_of_journal journal es

  unfoldable pub validate_journal_balance : ℕ → Action D Bool
  unfolding sum_of_journal
  validate_journal_balance journal = do
    wrapped "failed to validate journal balance" call_driver
    gets (λ w. is_zero (sum_of_journal journal w.tables.ledger_entries))
