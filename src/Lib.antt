-- ===== src/Lib.antt =====
-- Gripe, a payments platform on MongoDB or PostgreSQL behind one `Store` interface.
--
-- The program. HTTP handlers (internal/api) check roles and call the methods of `Store`
-- (internal/store/store.go), which store/mongo and store/postgres implement; the cycler and the fee
-- worker call the same methods. A payment goes authorized -> captured -> settled (bank transfers
-- begin pending), and settling credits the merchant's balance in the payment's currency with the
-- amount less Gripe's fee. A refund is created against a captured or settled payment, and settling
-- it debits the balance.
--
-- What is modelled, by file.
--   Int, Int/Word: Go's int64, with the wrap-around written out.
--   Domain: internal/domain/domain.go (enumerations and records), with Domain/Money (money.go:
--     GripeFee, divHalfEven), Domain/Cadence (SubscriptionCadence.Advance and the calendar of
--     AddDate) and Domain/Views (filters, pages, the rows of the reports).
--   Exec: a method as an action on the database. Each command to the server is answered, does not
--     reach it, or is carried out with its answer lost; outcomes, readings of the clock and random
--     ids are streams of the environment. Exec/Stable has the rules for invariants, Exec/Triple those for what
--     an action needs and gives.
--   Storage: what the stores rely on in a collection or table with a unique key, as an interface
--     with the documented effect of each command as a law. Storage/Listed is an implementation.
--   Query: filters, sorts and limits as the databases carry them out, with their laws.
--   Contract: what the methods promise, on payments and ledgers as clients can ask for them, with
--     Contract/Calls: calls as data, and the contract as a machine that answers them, and
--     Contract/SettleRefund: the refunds that clients can ask for, and their settlement.
--   Backends: the same calls on both stores.
--   Mongo: store/mongo/store.go. Create (onboardActors, CreatePayment), Transitions (GetPayment,
--     CapturePayment, SettlePayment, SettleNetworkFee), Refunds (RefundPayment, SettleRefund),
--     Subscriptions (CreateSubscription, CancelSubscription, DueSubscriptions, AdvanceSubscription),
--     Listing (listPayments), Reports (GetMerchantBalances, the admin reports).
--   Postgres: store/postgres/store.go, the same methods, with the tables of the migrations, their
--     foreign keys, and a transaction as a copy of the tables that the commit installs. Sound: the
--     foreign keys and the cache of actors.
--   History and Calls, of both stores: sequences of calls. History has commands that fail, and all
--     methods that write to the collections or tables it is about; Calls has a server that answers, a
--     clock that stands still for the length of a call, and the six methods that create, read and move
--     a payment. SettleRefund is not among the six.
--   Listing: what listPayments of both stores share: the cursor, the order, the page. Listing/Pages
--     has a client's loop over the cursors, Listing/Cursors their encoding.
--   Reports: groups with sums and counts, and the orders of the rows, for both stores.
--   Cycler: internal/cycler/cycler.go over its interface `Advancer`; Cycler/Backends fills it with
--     the two stores.
--   Events: internal/events/events.go. FeeWorker: cmd/fee-worker/main.go (the fee, one message, one
--     batch).
--   Api: internal/api. Actors (actorMiddleware), Idempotency (idempotencyMiddleware over any handler
--     and any collection of records), Recorder, Handlers (the handlers that write, and getPayment, over the
--     methods of `Store` as an interface), Reads (listPayments, getBalances, the reports), Routes
--     (server.go: each route with its middleware, and healthz). The modules called Backends fill the
--     interfaces with the stores. JSON, RFC 3339, SHA-256, the texts of errors and the event queue
--     are parameters.
--   Config: internal/config/config.go (FromEnv) and internal/bootstrap/store.go (OpenStore).
--   The modules called Tests run the definitions on concrete documents.
--
-- Choices. Time is a number of nanoseconds since Go's zero time. A method runs by itself: the
-- interleaving of two methods inside one another is not modelled, only each command's atomicity.
-- Sums inside the databases are exact: a stored number past int64 is not modelled, but for the bigint
-- sum of RefundPayment on PostgreSQL, which the server refuses. The times of an idempotency record are
-- cut to milliseconds by MongoDB and to microseconds by PostgreSQL; the other stored times are exact
-- numbers here, which the databases cut in the same way, and the calls on both stores are compared
-- without them. The order of ids and texts in a database, base64 and JSON of a cursor and the text
-- of a day are parameters. Two loops take fuel: a client's over the pages of a listing, for which one
-- unit for each 50 payments is enough, and the cycler's `drain` (Run between two sleeps), whose body
-- is `tick`; decimal digits are printed to 20 places, as many as an int64 can have.
--
-- Not modelled: ServeMux's choice of a route, process start and shutdown (cmd), sleeping and the
-- cancellation of a context, the SQS client, the connections and migrations of the stores, demo data
-- (internal/seed), the test suites, the web front end and the deployment.
pub mod Api
pub mod Backends
pub mod Common
pub mod Config
pub mod Contract
pub mod Cycler
pub mod Domain
pub mod Events
pub mod Exec
pub mod FeeWorker
pub mod Int
pub mod Listing
pub mod Mongo
pub mod Postgres
pub mod Query
pub mod Reports
pub mod Storage
