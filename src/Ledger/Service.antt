-- ===== src/Ledger/Service.antt =====
-- internal/ledger/service.go: `Service`, operation by operation. Each reads the accounts outside its
-- transaction, writes inside it, and commits last.
pub mod Hold
pub mod Transfer
pub mod TopUp
pub mod Inverse
use micro_coin.Base.{ℕ, List, [], ◌∷◌, String}
use micro_coin.Decimal.{Decimal, nought, ◌⊕◌, ◌⊖◌, negate, less_than, less_than_or_equal}
use micro_coin.Models.{Account, LedgerEntry, Currency, usd, uuid_nil}
use micro_coin.Database.World.{
  Action, Tx, message, ◌>>=◌, ◌>>◌, pure, fail_if, wrapped, new_uuid, begin, commit,
}
use micro_coin.Database.Accounts.{
  get_account_by_user_id_and_currency, get_account_by_id, update_account_balance,
}
use micro_coin.Ledger.Journal.{entry_of, create_journal}

module _ {D : Type 0} ⦃dec : Decimal D⦄ where
  abbrev pub top_up_entries : ℕ → ℕ → D → List (LedgerEntry D)
  top_up_entries journal account amount =
      entry_of journal account amount usd "TOPUP" journal
      ∷ entry_of journal uuid_nil (negate amount) usd "TOPUP" journal
      ∷ []

  unfoldable pub top_up_user : ℕ → D → Action D (Account D)
  top_up_user user_id amount = do
    fail_if (less_than_or_equal amount nought) (message "amount must be positive")
    tx ← wrapped "failed to begin transaction" begin
    account ← wrapped "failed to get USD account" (get_account_by_user_id_and_currency user_id usd)
    journal_id ← new_uuid
    tx ←
        wrapped "failed to create journal"
          (create_journal tx (top_up_entries journal_id account.id amount))
    let new_balance = account.balance_available ⊕ amount
    tx ←
        wrapped "failed to update account balance"
          (update_account_balance tx account.id new_balance account.balance_hold)
    wrapped "failed to commit transaction" (commit tx)
    pure (record account { balance_available = new_balance })

  unfoldable pub hold_funds : ℕ → Currency → D → Action D (Unit {0})
  hold_funds user_id currency amount = do
    fail_if (less_than_or_equal amount nought) (message "amount must be positive")
    tx ← wrapped "failed to begin transaction" begin
    account ← wrapped "failed to get account" (get_account_by_user_id_and_currency user_id currency)
    fail_if (less_than account.balance_available amount) (message "insufficient funds")
    let new_available = account.balance_available ⊖ amount
    let new_hold = account.balance_hold ⊕ amount
    tx ←
        wrapped "failed to update account balance"
          (update_account_balance tx account.id new_available new_hold)
    wrapped "failed to commit transaction" (commit tx)

  unfoldable pub release_hold : ℕ → Currency → D → Action D (Unit {0})
  release_hold user_id currency amount = do
    fail_if (less_than_or_equal amount nought) (message "amount must be positive")
    tx ← wrapped "failed to begin transaction" begin
    account ← wrapped "failed to get account" (get_account_by_user_id_and_currency user_id currency)
    fail_if (less_than account.balance_hold amount) (message "insufficient held funds")
    let new_available = account.balance_available ⊕ amount
    let new_hold = account.balance_hold ⊖ amount
    tx ←
        wrapped "failed to update account balance"
          (update_account_balance tx account.id new_available new_hold)
    wrapped "failed to commit transaction" (commit tx)

  abbrev pub transfer_entries : ℕ → ℕ → ℕ → D → Currency → String → ℕ → List (LedgerEntry D)
  transfer_entries journal from to amount currency ref_type ref_id =
      entry_of journal from (negate amount) currency ref_type ref_id
      ∷ entry_of journal to amount currency ref_type ref_id
      ∷ []

  -- `TransferFunds` from the journal on, for the two accounts that it has read.
  unfoldable pub post_transfer :
      Tx D → Account D → Account D → ℕ → ℕ → D → Currency → String → ℕ → Action D (Unit {0})
  post_transfer tx from to from_id to_id amount currency ref_type ref_id = do
    journal_id ← new_uuid
    tx ← wrapped "failed to create journal" (
        create_journal tx
          (transfer_entries journal_id from_id to_id amount currency ref_type ref_id))
    let from_new_balance = from.balance_available ⊖ amount
    let to_new_balance = to.balance_available ⊕ amount
    tx ←
        wrapped "failed to update from account balance"
          (update_account_balance tx from_id from_new_balance from.balance_hold)
    tx ←
        wrapped "failed to update to account balance"
          (update_account_balance tx to_id to_new_balance to.balance_hold)
    wrapped "failed to commit transaction" (commit tx)

  unfoldable pub transfer_funds : ℕ → ℕ → D → Currency → String → ℕ → Action D (Unit {0})
  transfer_funds from_id to_id amount currency ref_type ref_id = do
    fail_if (less_than_or_equal amount nought) (message "amount must be positive")
    tx ← wrapped "failed to begin transaction" begin
    from ← wrapped "failed to get from account" (get_account_by_id from_id)
    to ← wrapped "failed to get to account" (get_account_by_id to_id)
    fail_if (less_than from.balance_available amount) (message "insufficient funds in from account")
    post_transfer tx from to from_id to_id amount currency ref_type ref_id
