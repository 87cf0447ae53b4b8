-- ===== src/Database/Accounts.antt =====
-- internal/database/account.go: `AccountRepository`. Reads go to the database and not through the
-- transaction, so they see committed rows only.
use micro_coin.Base.{ℕ, Bool, true, false, List, ◌==◌}
use micro_coin.Decimal.{Decimal}
use micro_coin.Models.{Account, Currency, usd, btc, eth}
use micro_coin.Database.Tables.{account_by_id, account_of, update_balance}
use micro_coin.Database.Queries.{order_by, rows_where}
use micro_coin.Database.World.{
  Action, Tx, message, ◌>>=◌, ◌>>◌, wrapped, or_fail, call_driver, gets, exec,
}

-- An enum orders its values as it declares them: USD, BTC, ETH.
abbrev pub currency_before : Currency → Currency → Bool
currency_before usd btc = true
currency_before usd eth = true
currency_before btc eth = true
currency_before _ _ = false

module _ {D : Type 0} where
  unfoldable pub get_account_by_user_id_and_currency : ℕ → Currency → Action D (Account D)
  get_account_by_user_id_and_currency user_id currency = do
    wrapped "failed to get account" call_driver
    found ← gets (λ w. account_of user_id currency w.tables.accounts)
    or_fail found (message "account not found")

  -- ORDER BY currency. A query that fails while its rows are read fails as a whole here.
  unfoldable pub get_accounts_by_user_id : ℕ → Action D (List (Account D))
  get_accounts_by_user_id user_id = do
    wrapped "failed to get accounts" call_driver
    gets (λ w.
        order_by (λ a b. currency_before a.currency b.currency)
          (rows_where (λ a. a.user_id == user_id) w.tables.accounts))

  unfoldable pub get_account_by_id : ℕ → Action D (Account D)
  get_account_by_id id = do
    wrapped "failed to get account" call_driver
    found ← gets (λ w. account_by_id id w.tables.accounts)
    or_fail found (message "account not found")

module _ {D : Type 0} ⦃dec : Decimal D⦄ where
  unfoldable pub update_account_balance : Tx D → ℕ → D → D → Action D (Tx D)
  update_account_balance tx account_id available hold =
      wrapped "failed to update account balance"
        (exec tx (update_balance account_id available hold))
