-- ===== src/Lib.antt =====
-- micro_coin: a model of microCoin, an exchange in one process, with the theorems that make its parts
-- correct.
--
-- The program is an HTTP server (cmd/monolith) over services that share a PostgreSQL database and a
-- Redis server. A request passes the authentication (internal/auth), the rate limiter (internal/rate)
-- and the headers of CORS before its handler runs. The handlers of top-ups and orders look up an
-- idempotency key (internal/idempotency) first and store one at the end. The order service
-- (internal/orders) checks a request, prices a market order by the quotes (internal/quotes), holds
-- the funds, matches the order in a book in memory (internal/limitbook) and pays each trade through
-- the ledger service (internal/ledger), which writes balances and balanced journals through the
-- repositories of internal/database and internal/ledger/ledger.go.
--
--   Base              names of the libraries passed on, Boolean tests, lists by native indices,
--                     integers
--   Decimal           decimal.Decimal and NUMERIC(30,10) as an interface: operations (`Decimal`) and
--                     laws (`IsDecimal`); Decimal/Instance meets it with the whole numbers
--   Models            internal/models/types.go and requests.go
--   Database          tables, statements, transactions and the server's failures (Tables, World),
--                     listings (Queries), internal/database/account.go (Accounts), order.go (Orders)
--                     user.go (Users) and database.go (Connection), facts about rows (Rows)
--   Ledger/Journal    internal/ledger/ledger.go
--   Ledger/Service    internal/ledger/service.go: TopUpUser, HoldFunds, ReleaseHold, TransferFunds
--   Ledger/Spec       what each of them promises, as a partial function on the tables, and the
--                     invariant of the tables
--   Ledger/Session    any sequence of calls of the service
--   Ledger/Overlap    calls of the service statement by statement, interleaved
--   Limitbook         internal/limitbook/heap.go (PriceHeap) and orderbook.go: orders and levels as
--                     shared objects (Memory), BookSide (Side), OrderBook (Book), MatchOrder (Match)
--   Orders            internal/orders/service.go: the checks and the payment of a trade (Service), the
--                     state and the loading of the books (Exchange), CreateOrder (Create)
--   Quotes            internal/quotes/quotes.go: the quotes and the channels of subscribers, and the
--                     rounds of the goroutines that draw and forward quotes (Feed)
--   Idempotency       internal/idempotency/idempotency.go
--   Http              requests, responses and handlers of net/http, as far as the program uses them
--   Auth              internal/auth: GenerateTokens and ValidateToken (Tokens), HashPassword and
--                     VerifyPassword (Passwords, over Base64 and Scan), AuthMiddleware (Middleware)
--   Rate              internal/rate: the numbers of Lua as an interface (Number), Limiter and its
--                     scripts (Limiter), RateLimitMiddleware (Middleware)
--   Server            cmd/monolith/main.go: the stack of the middleware (Stack), topupHandler and
--                     createOrderHandler (Money), signupHandler and loginHandler (Accounts), the
--                     handlers that only read (Pages), websocketQuotesHandler (Socket), requests one
--                     after the other (App), and the routes of main behind the stack (Routes)
--
-- A function keeps its Go name in snake_case. A Go function that talks to the database is an action:
-- a function of the world (tables, clock, source of fresh ids, and which calls of the driver fail)
-- that returns a result or an error, and the world after it. Statements of a transaction are
-- collected and reach the tables when it commits; reads do not go through the transaction, as in the
-- code. Which calls fail is a parameter, so the theorems hold whatever the server does; a violated
-- constraint on a table that is not modelled is such a failure. Redis is a state of buckets in the
-- same way, whose replies can be refused or lost. Ids and times are numbers, and 0 is `uuid.Nil`. JSON,
-- SHA-256, Argon2, the package jwt, what a JSONB column keeps, and the order in which Go visits the map
-- of the headers for a fingerprint, another one for each request, are parameters.
--
-- `MatchOrder` runs on fuel, one unit for each round of its outer loop, since the code may not end;
-- its safety theorem holds for any fuel and for every way of ending, two rounds are shown to be
-- enough where the first order at the best price can take everything, and two theorems give states
-- from which the call panics or never ends. `CreateOrder` passes its fuel on to it, and its theorem
-- holds for every way of ending too. The inner loop runs over the length of the slice that it ranges
-- over, and `heap.Push` over the length of the heap.
--
-- Not modelled: locks (each operation runs as one step, but for the delivery of a quote and the
-- statements of Ledger/Overlap), the wiring of the start-up and the shutdown, how the
-- package mux matches a path (a parameter of Server/Routes), and logging.
pub mod Base
pub mod Decimal
pub mod Models
pub mod Database
pub mod Ledger
pub mod Limitbook
pub mod Orders
pub mod Idempotency
pub mod Http
pub mod Auth
pub mod Rate
pub mod Server
pub mod Quotes
