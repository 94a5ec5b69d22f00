-- ===== src/Lib.antt =====
-- A verification library for the transaction verification service (TVS), a Go service that watches
-- deposit sessions and withdrawals on Solana, checks them against the Helius API, records the
-- transactions and moves the users' balances in a PostgreSQL database.
--
-- The parts, and where they are modelled:
-- - Currency: pkg/currency/utils.go, rounding to cents. Float: float64 as far as the code uses it. A
--   finite float64 is mantissa / 2 ^ exponent, comparison and `math.Round` are exact, and the
--   operations that round and the texts of strconv and fmt are the record `FloatOps`, a parameter.
--   NaN and the infinities are left out.
-- - Domain: internal/domain, structs as records and string constants as data types.
-- - Db: the statements of internal/repositories/*/gen/queries.sql.go on tables that are lists of rows,
--   with the constraints of db/schema/schema.sql that an insertion or a change can break. Db.Frame has
--   what each leaves alone, Db.Balances.Totals what those on balances keep.
-- - Effects: the state and the errors. An action takes the environment `Env` (the clock, the uuids, the
--   answers of the servers, the faults of the database, all of them arbitrary functions of the number
--   of the call) and the `World` (the database, the messages sent, the sleeps) and returns a value, a
--   Go error or a panic, with the next world. Effects.Calls has the calls to the outside. A
--   transaction of the database is the copy of the tables that COMMIT stores. One action runs at a
--   time: what other processes do to the tables in between is not modelled. Effects.Keeps has the rules
--   for invariants of the database, Effects.Triple those for what the database has after a return,
--   Effects.Returns those for what is returned, and Effects.Bounded those for ends within a number of
--   calls.
-- - Repo: internal/repositories, one module for each repository, a function for each method.
-- - Exchange: internal/infrastructure/clients/exchange_client.go. Its retries run on the fuel
--   max_retries + 1, enough because a call retries only below max_retries. Exchange.Rates is the loop
--   over several currencies.
-- - Helius: internal/infrastructure/rpc/helius.go.
-- - Service: internal/application/verificationservice/verification_service_impl.go. Service.Rules has
--   the pure helpers at its end, Service.Deposit `processVerifiedDeposit`, Service.Withdrawal
--   `processVerifiedWithdrawal`, Service.Failure `markWithdrawalFailed`, Service.SessionCheck
--   `verifySolanaSession` and Service.WithdrawalCheck `verifySolanaWithdrawal`. Their loop over at
--   most four attempts is structural recursion on the attempts that are left.
--   Service.Poll has `processPendingSessions` and `processPendingWithdrawals`. Both page through a
--   table by an offset; their loop runs on fuel and is not at its end without it, where fuel for one
--   page more than the table has is enough. A poll returns the rows that it starts goroutines for.
--   Service.System has the polls and the goroutines as steps in any order, where a goroutine runs from
--   its start to its end.
-- - Hub: internal/server/websocket/ws_hub.go. Hub.Clients is the map from users to connections,
--   Hub.Run the loop, one turn for each event that is taken from a channel, in any order; an event of
--   a message says which connections can be written to. Hub.View and Hub.Refine are the abstract view
--   of the maps as a relation, Hub.WellFormed and Hub.Invariant their shape, Hub.Delivery and
--   Hub.Given what is given out. Hub.Message has the messages.
-- - Auth: internal/application/auth/auth_service_impl.go, with the library for tokens as the parameter
--   `AuthLibrary`, and Repo.Auth and Db.Auth for internal/repositories/authrepo.
-- - Server: internal/server/handlers and internal/server/middleware. Server.Request has what the
--   framework reads of a request, Server.Routes a request's way from its route through the middleware
--   to its handler; a client that is sent to the hub's channel Register is part of the answer.
--   Server.Access says who joins the hub and Server.Sent what a request hands to it.
--   Server.Spaces and Server.Bearer are about the header that carries a token, and Server.Delivery
--   joins the routes and the hub.
-- - Config: the settings of pkg/config/config.go that the code reads.
-- The service calls the repositories, the clients and the hub's channel, and nothing calls back. The
-- handlers call the authentication service and the hub's channels.
--
-- Not modelled: the ticker's period, and that goroutines run at the same time, ten at most for a
-- chain; the capacity of the hub's channels; the start and shutdown of the HTTP server;
-- configuration loading, logging and wiring, which are input and output. Logging calls are left out of
-- the actions.
--
-- The offsets of the polls are below 2^31 and the products of the configured durations below 2^63, so
-- that int32(offset) and time.Duration do not wrap around. The times of user_sessions are stored by
-- `timestamptz`, a parameter for the whole microseconds that the database keeps; the other tables keep
-- the times that they are given.
--
-- A number of type int64 is an integer that wraps around where the code adds or subtracts, int32 where
-- it is converted. Native numbers stand for counts, durations in nanoseconds and times.
pub mod Prelude
pub mod Float
pub mod Currency
pub mod Domain
pub mod Db
pub mod Config
pub mod Hub
pub mod Effects
pub mod Repo
pub mod Exchange
pub mod Helius
pub mod Service
pub mod Auth
pub mod Server
mod Tests
