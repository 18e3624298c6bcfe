-- ===== src/Lib.antt =====
-- RedRoomRewards keeps balances of points for users and models. This library models its core in
-- antt and proves what the code makes sure of. Paths below are those of the repository, under its
-- src/ folder.
--
-- The parts, and how they interact. A request comes to the wallet service
-- (wallets/wallet.service.ts), which moves points between a user's available balance, the balance in
-- escrow and a model's earned balance. It claims the request's idempotency key from the ledger
-- service (ledger/ledger.service.ts), changes the documents of db/models by single MongoDB calls
-- under optimistic locking, writes ledger entries through the ledger service, and publishes an event
-- through events/wallet-event-publisher.ts to the event bus (events/event-bus.ts), where the cache of
-- balances (events/balance-snapshot-cache.ts) listens. Events from outside are queued as documents,
-- which the ingest worker (ingest-worker/worker.ts) hands to its handlers, again and again while they
-- fail, and then moves to the dead letters, from which ingest-worker/replay.ts takes them back.
--
-- The files:
--   Prelude, with Tests, Lists, Sorting, Members, Int and Text: names of the libraries, Boolean
--     tests, lists and their members, the sort by a key, signed integers over the native numbers,
--     texts.
--   Domain: wallets/types, ledger/types.ts and services/types/error.types.ts, that is the
--     enumerations, the errors, the requests and the responses.
--   Store: db/models. Docs has the documents; Interface says what the services rely on of a
--     collection (find by key, write, delete, search); Table is a collection in memory that
--     satisfies it, and Memory a database of such tables, to run the services on.
--   Action: an asynchronous method, as a function of the environment and the state that returns a
--     result or an error. Each database call is one atomic step, and before each step the other
--     requests may change the database in any way that the theorem's hypothesis on the environment
--     allows. What a method wrote before it throws stays written. Action/Keeps and Action/Triples
--     have the rules by which a relation between the databases before and after a method is proved.
--   WalletEvents and Service: the events, and the type of a method.
--   Ledger: Pii is the scan of the metadata and Pii/Pattern what it looks for, stated by itself, Entries is createEntry, Idempotency is
--     checkIdempotency, claimIdempotency and storeIdempotencyResult, Snapshot is
--     getBalanceSnapshot, Reconciliation is generateReconciliationReport and getAuditTrail, Query
--     is queryEntries and getEntry; their child modules have the laws. Ledger/Grows is the
--     append-only order on databases.
--   Wallet: Steps has the database calls, Hold is holdInEscrow, Settle is settleEscrow, Refund is
--     refundEscrow, Partial is partialSettleEscrow, Balance is getUserBalance and getModelBalance;
--     their child modules say what each does when it runs alone. Calls is a sequence of requests,
--     Guarantees reduces a property of all requests to one of each single step, and Invariants has
--     the properties under interference.
--   Accrual: services/point-accrual.service.ts. Checks has the validations, Award is awardPoints
--     and the bonuses, Deduct is deductFromAvailable; Alone and Deduction say what they do alone,
--     Calls, Guarantees and Invariants are as for the wallet service.
--   Expiration: processUserExpiration of services/point-expiration.service.ts, with Alone on what
--     it does alone. Its recursion, which the code does not bound, is on a number of attempts;
--     alone, one is enough.
--   Reservations: reservations/service.ts as a state machine. Status has its step relation and
--     what any sequence of steps keeps, among them the deletions by age that the index on expiresAt
--     asks of MongoDB.
--   Authorization: services/auth.service.ts. Service has its methods, Issued says what becomes of
--     the tokens it makes and Verdicts what its validations accept.
--   Events: Types is events/types.ts, Building the events that the publisher builds, Bus the
--     class EventBus of events/event-bus.ts and Cache the class BalanceSnapshotCache. The child
--     modules of Bus are Publish, which has the publication, Retry on the attempts of one
--     notification, Publishing and Delivery on the answer of publish, Once on deduplication and
--     Order on the order of the subscribers; those of Cache are Eviction and Oldest on what an
--     eviction takes, Bounded on the size, and Reports, Shows, Upserts and Faithful on what the
--     cache answers. Calls, in both, is a sequence of calls.
--   Ingest: ingest-worker/types.ts and the documents. Steps has the database calls, Worker is
--     ingest-worker/worker.ts and Replay is ingest-worker/replay.ts. Worker/Alone says what one
--     attempt does alone, Retries and Undying what becomes of an event that keeps failing;
--     Replay/Counts and Replay/Alone are on what a replay answers and does.
--
-- Choices. A method keeps its name in snake case, and what follows a test or a `catch` is a
-- function of its own by clauses, named for what it does. An amount is an integer of thousandths of
-- a point, so that the tolerance of 0.01 is ten. The attempts of holdInEscrow, awardPoints and
-- deductFromAvailable are the fuel of their loops, maxRetryAttempts of them, as in the code, and so
-- are those of a notification. A `Map` is a table in the order of insertion, and a sort keeps
-- elements of one key in their order; the order in which a call of MongoDB meets the entries that it
-- sorts is a parameter, the field arrange of Store, and may change from call to call. A publication
-- that does not wait for its handlers answers before any of them has ended. The bus and the cache are synchronous, so that each of their
-- methods is a function of the state; a publication also has what becomes of the notifications it
-- started. A subscriber's handler answers by the number of its failed attempts; a handler of the
-- worker is any method. Events in the same batch are processed one after another, with the
-- environment in between. MongoDB, uuid, the clock and the delivery of events are outside the
-- repository: they are the interface Store/Interface and the environment of Action. So are
-- jsonwebtoken and the texts of dates, which are the interfaces Jwt and Dates.
--
-- Not modelled: the back-off between two attempts, which only delays; metrics, which are counters;
-- the validations of MongoDB's driver on the length and the presence of texts; the unique index on
-- entryId, whose values are uuid's; the deletion of idempotency records after ninety days, which
-- the hypotheses on the environment exclude; the earn rates; the documents that one call of the
-- driver takes when reservations expire, which are a parameter; the statistics of dead letters,
-- which the driver aggregates; timers, the polling loop and the global instances of bus and cache,
-- which only repeat or hold what is modelled. Redemption, batches of expirations, administration, the
-- controllers, and the ledger's promotional credits and deductions, which run in a transaction of
-- the driver, are not part of the library.
pub mod Prelude
pub mod Domain
pub mod Store
pub mod Action
pub mod WalletEvents
pub mod Service
pub mod Ledger
pub mod Wallet
pub mod Accrual
pub mod Authorization
pub mod Events
pub mod Expiration
pub mod Ingest
pub mod Reservations
