-- ===== src/Ledger/Journal/Listings.antt =====
-- internal/ledger/ledger.go: the listings of ledger entries.
use micro_coin.Base.{ℕ, Bool, true, false, List, [], ◌∷◌, ◌==◌, ltb, take, drop}
use micro_coin.Models.{LedgerEntry}
use micro_coin.Database.Queries.{order_by, rows_where}
use micro_coin.Database.World.{
  Action, driver, wrap, ◌>>=◌, ◌>>◌, wrapped, call_driver, gets, fail_if, pure,
}

module _ {D : Type 0} where
  abbrev pub earlier : LedgerEntry D → LedgerEntry D → Bool
  earlier a b = ltb a.created_at b.created_at

  abbrev pub later : LedgerEntry D → LedgerEntry D → Bool
  later a b = ltb b.created_at a.created_at

  abbrev pub some_row : List (LedgerEntry D) → Bool
  some_row [] = false
  some_row (e ∷ es) = true

  -- ORDER BY created_at. A query that fails while its rows are read fails as a whole here.
  unfoldable pub get_ledger_entries_by_journal_id : ℕ → Action D (List (LedgerEntry D))
  get_ledger_entries_by_journal_id journal_id = do
    wrapped "failed to get ledger entries" call_driver
    gets (λ w.
        order_by earlier (rows_where (λ e. e.journal_id == journal_id) w.tables.ledger_entries))

  -- ORDER BY created_at DESC LIMIT $2 OFFSET $3. `Scan` is given nine destinations for eight columns,
  -- the amount's twice, which database/sql refuses for any row.
  unfoldable pub get_ledger_entries_by_account_id : ℕ → ℕ → ℕ → Action D (List (LedgerEntry D))
  get_ledger_entries_by_account_id account_id limit offset = do
    wrapped "failed to get ledger entries" call_driver
    rows ← gets (λ w. take limit (
        drop offset
          (order_by later (rows_where (λ e. e.account_id == account_id) w.tables.ledger_entries))))
    fail_if (some_row rows) (wrap "failed to scan ledger entry" driver)
    pure rows
