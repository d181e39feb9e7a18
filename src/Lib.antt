-- ===== src/Lib.antt =====
-- The accounts API: user accounts with their profile, settings, credentials, addresses, payment
-- methods, passkeys, preferences and consent log, kept in one DynamoDB table.
--
-- Prelude, Exec and Errors are shared: Go's strings and integers, fallible code over a state, and
-- errors as the cause at the end of a chain of wraps.
-- Dynamo is the interface of the DynamoDB client, which is not part of the repository: the operations
-- as a record over an abstract state (Dynamo), the meaning of items and expressions (Dynamo/Items),
-- the documented behaviour as laws (Dynamo/Laws), and a table in memory that keeps the laws
-- (Dynamo/Memory). Theorems on the repository take a client and its laws.
-- Models has the request and response types of internal/models, and Models/Enums their
-- enumerations. Clients is internal/clients: the client's configuration, and what events are made of.
-- Db is internal/db, one module per file: Keys (utils.go), Account and Erasure (account.go),
-- Settings, Passkeys, Payments, Address, Consent, Preferences, and Defaults (the default flag of
-- payments.go and address.go). Draft has the three collections (clauses, values, names) that every
-- partial update extends side by side; Draft/Resolve and Draft/Apply relate them to what is written.
-- Db/Emails has the calls of the repository as steps, and the states that they reach.
-- TtlCache is internal/ttlcache/cache.go.
-- Api is internal/api: the requests, the answers and errors.go (Api), service.go (Api/Service), and a
-- module per other file with its operations and its handlers: Settings, Account and Profile,
-- Credentials, Address, Payments, Passkey, Preferences (consent.go too), Unsubscribe, Export and
-- Health. Those that touch the table alone act on the client's state; the others act on a World: the
-- table, the objects of the SDK's object store, the two caches, and the published events.
-- Server is cmd/server (Setup and Main): the program up to the start of its listeners.
-- Tests runs the definitions on concrete tables.
--
-- A Go function of snake case name has the same words: DeleteAccount is delete_account. Two names
-- of the service that the repository has too carry `service_` first. The time, and the identifiers
-- that ksuid draws, are arguments. An operation that updates its argument in place returns it.
-- Int and int64 are ℤ with the wrap-around of 64 bits where one is added. Instants are natural
-- numbers of nanoseconds from Go's zero time, so 0 is the zero time; durations are nanoseconds.
-- A text counts its characters where Go counts bytes.
--
-- What the code calls outside the repository is a parameter: the DynamoDB client, the object store,
-- the building of events, the encodings and the signature of a token (Tokens, with its laws), the
-- constructors of the SDK (Sdk), the parsers of numbers, the environment and the HTTP client.
--
-- The loop over the chunks of the erasure runs on fuel, the number of children, which is enough
-- since each pass moves on by a chunk. Other loops are structural.
--
-- Reads are taken to be up to date and calls to be one at a time: no retry, no consistency lag and
-- no interleaving of two requests inside one operation. Logs are left out. Case folding and trimming
-- act on ASCII. Not modelled: the JSON of bodies, so a request holds what the decoder accepted and an
-- export is stored as it is; the routes of internal/server/mux.go, which are calls of the SDK's router
-- and middleware, and the middleware that logs scopes; the idempotency store and the limits of the
-- lookup by email; the listeners; and the test doubles.
pub mod Prelude
pub mod Errors
pub mod Exec
pub mod Dynamo
pub mod Models
pub mod Clients
pub mod Db
pub mod TtlCache
pub mod Api
pub mod Server
pub mod Tests
