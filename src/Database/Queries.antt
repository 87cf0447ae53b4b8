-- ===== src/Database/Queries.antt =====
-- What a query with WHERE and ORDER BY returns, for the listings of internal/database/order.go,
-- internal/database/account.go and internal/ledger/ledger.go.
use micro_coin.Base.{Bool, List, [], ◌∷◌, if◌then◌else◌}

-- `before` says which row comes first; rows that it does not tell apart stay in the table's order,
-- which SQL permits.
module _ {A : Type 0} (before : A → A → Bool) where
  abbrev pub insert_row : A → List A → List A
  insert_row o [] = o ∷ []
  insert_row o (p ∷ ps) = if before p o then p ∷ insert_row o ps else o ∷ p ∷ ps

  -- The rows are placed from the last to the first.
  abbrev pub order_by : List A → List A
  order_by [] = []
  order_by (o ∷ os) = insert_row o (order_by os)

abbrev pub rows_where : {A : Type 0} → (A → Bool) → List A → List A
rows_where test [] = []
rows_where test (o ∷ os) = if test o then o ∷ rows_where test os else rows_where test os
