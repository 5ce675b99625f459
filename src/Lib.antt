-- ===== src/Lib.antt =====
-- A model of the resQ server, which dispatches resources to incidents: a REST service and an event
-- worker over one PostgreSQL database, with a Redis queue between them.
--
-- How the parts interact. A report creates an incident; approval makes it APPROVED; the decision
-- engines score it and recommend a resource; an assignment ties a resource to it, makes the one
-- BUSY and the other ASSIGNED, and is completed or cancelled later. Each of these writes an event
-- to the outbox table. The publisher moves events to the queue; the worker takes them from there,
-- scores new incidents, and asks for a re-optimization when a resource breaks down, which may
-- replace the resource of an assignment. Resources and hospitals are read through a cache in Redis,
-- which their writes invalidate. Guards on role and ownership, a rate limit and the check of a token
-- stand before the handlers, and an error handler behind them.
--
-- Which file models which part, with paths from the root of the repository:
--   Common                   helpers: Boolean tests, lists, texts, errors as values
--   Db/Rows, Db/Tables       prisma/schema.prisma: rows, tables and the queries on one table
--   Reliability/Retry        src/reliability/retry.ts: calculateBackoff, withRetry
--   Reliability/CircuitBreaker  src/reliability/circuit-breaker.ts: one breaker as a state machine
--   Reliability/Idempotency  src/reliability/idempotency.ts: the middleware around one handler
--   Reliability/Timeout      src/reliability/timeout.ts: withTimeout, withTimeoutAndRetry
--   Decision/Priority        src/modules/decision/decision.engine.ts: calculatePriority
--   Decision/Allocation      src/modules/decision/resource-allocation.engine.ts: recommendResource
--   Decision/Matching        its test of a resource's type, which other modules repeat
--   Decision/Recommendation  src/modules/decision/decision.service.ts:
--                            recommendResourceForIncident, getDecisionsByIncident
--   Assignment/Defs          src/modules/assignment/assignment.service.ts: createAssignment
--   Assignment/Release       completeAssignment and cancelAssignment of the same file
--   Assignment/Reads         the reads of the same file
--   Incident/Defs            src/modules/incident/incident.service.ts, and
--                            calculateAndSaveIncidentPriority of
--                            src/modules/decision/decision.service.ts
--   Incident/Reads           the reads of incident.service.ts
--   Reoptimization/Engine    src/modules/reoptimization/reoptimization.engine.ts
--   Reoptimization/Strategy  steps 1 to 5 of reoptimizeAssignment in reoptimization.service.ts
--   Reoptimization/Service   step 6, the transaction, and the whole of reoptimizeAssignment
--   Resource                 src/modules/resource/resource.service.ts: the writes
--   Resource/Reads           its reads through the cache, and the invalidation
--   Hospital/Defs            src/modules/hospital/hospital.service.ts: the writes of the table
--   Hospital/Service         its reads through the cache, and the writes with the invalidation
--   Caching                  src/cache: the cache service and the cache-aside read
--   User                     src/modules/user/user.service.ts
--   Auth                     src/auth/auth.service.ts, src/middlewares/auth.ts, src/utils/jwt.ts
--   Access                   src/middlewares/permissions.ts
--   Routes                   the *.route.ts files of src/modules: the guards of each route
--   Audit                    src/modules/audit: audit.service.ts, and its controller
--   RateLimit                src/middlewares/rateLimit.middleware.ts: distributedRateLimit
--   ErrorHandler             src/middlewares/errorHandler.ts
--   Health                   src/health/health.service.ts
--   Pagination               src/utils/pagination.ts, and the page that the listings build
--   Events/Outbox            src/events/outbox/outbox.publisher.ts
--   Events/Worker            src/workers/event.worker.ts and src/events/handlers
--   Tests                    concrete runs
-- The modules below these hold the proofs and are named for what they prove.
--
-- How state and operations correspond. The database is the record Db, a list for each table. A
-- service function is a function from the tables to a Result with the new tables; `throw` is
-- `Result.err`. A function whose reads and writes are separate statements takes the tables twice:
-- `seen` is what its checks read and `met` what its writes meet, so other transactions may commit
-- in between; `complete_assignment` and `cancel_assignment` are `complete_tx` and `cancel_tx` with
-- nothing in between, and `complete_with_retry` and `cancel_with_retry` the whole calls. A
-- transaction that raises an error leaves the tables as they were. The partial unique indexes of the assignments table are checks of `insert_active`, on the tables that the INSERT
-- meets. `Surroundings` says which attempts meet a database fault, and what other transactions
-- commit. The cache is a state of Redis, which a read or a write of a service takes and returns
-- beside the tables; a read takes the store that its GET meets and the one that its SET meets. The
-- id of a request for one row is `RequestId`: no route checks the text, so it may also be one that
-- makes the key of the row the key of another entry. A middleware is a Result: `ok` is `next()`,
-- `err` is `next(error)`. In the circuit breaker, the calls that `execute` awaits interleave in any
-- order. The idempotency middleware answers without waiting for the INSERT of the key, so `Answer`
-- carries the row that is still to be inserted, and `persist` inserts it later, or not at all.
--
-- Bounds and fuel. `retry_loop` counts down the attempts that are left, as the loop counts up to
-- `maxAttempts`. `follow_pages`, a reader of all pages of a listing, counts down the requests that
-- it may make and gives no rows where it would need more. No other function needs fuel. Numbers are unbounded natural numbers: the program's
-- are counts, scores and ids far below 2^53. Scores are hundredths, distances hundredths of a
-- kilometre. An ETA is rounded from the exact quotient, which differs from the floating-point one
-- only where the exact value lies midway between two hundredths of a minute. Ids stand for their
-- rank in the order that `localeCompare` gives.
--
-- What is not modelled. haversineDistanceKm is floating-point trigonometry, and is an argument, as
-- are the libraries: the queue (BullMQ), the client of Redis (ioredis), bcryptjs and jsonwebtoken,
-- and the ORDER BY of the listing of incidents. A theorem names what it asks of them. Log output,
-- reason texts and explanations are left out, as are titles and time stamps that no decision reads.
-- The registry of circuit breakers, the timed deletion of old rows and the in-process rate limit are
-- left out, and so are the schemas that validate bodies, controllers, configuration and start-up.
pub mod Common
pub mod Db
pub mod Reliability
pub mod Decision
pub mod Assignment
pub mod Incident
pub mod Reoptimization
pub mod Resource
pub mod Events
pub mod Tests
pub mod Pagination
pub mod Access
pub mod Routes
pub mod Caching
pub mod Hospital
pub mod ErrorHandler
pub mod Health
pub mod RateLimit
pub mod Audit
pub mod User
pub mod Auth
