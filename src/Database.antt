-- ===== src/Database.antt =====
-- The database as the services use it: the tables of migrations/001_initial_schema.up.sql, the
-- statements of internal/database and internal/ledger/ledger.go, and transactions of database/sql.
-- The server is not part of the repository. Whether its next answer is a failure (a lost connection,
-- a number too long for its column) is the parameter `fails`, the clock and the source of fresh
-- ids are the parameters `clock` and `fresh`.
pub mod World
pub mod Tables
pub mod Queries
pub mod Accounts
pub mod Orders
pub mod Users
pub mod Rows
pub mod Keeps
pub mod Connection
