-- ===== src/Lib.antt =====
-- A verification library for node-b2b-orders, the order service of a multi-tenant B2B platform: an
-- HTTP API over PostgreSQL (through Prisma) and Redis, and a worker that consumes the events which
-- the API writes to an outbox.
--
-- The parts and how they interact. A route of the API passes the guards, then calls a service; a
-- service changes rows in a transaction, adds an event to the outbox in the same transaction, and
-- keeps its response under the idempotency key. The worker publishes the events of the outbox and
-- consumes them again: `order.created` reserves stock, `order.cancelled` gives the stock of an order
-- that is still RESERVED back,
-- `order.confirmed` asks for the charge, `payment.settled` marks an order as paid.
--
--   Base, Schema      shared names; rows of prisma/schema.prisma
--   Database          Prisma's tables, Redis and JSON as parameters with laws; Database/Memory is a
--                     concrete one, on which the tests run
--   World, Services   the state of a call, calls that may throw, transactions; src/shared/audit,
--                     src/infrastructure/redis, findFirst and update on rows
--   Orders            src/interfaces/orders: createOrder, confirmOrder, cancelOrder, shipOrder,
--                     deliverOrder, getOrder, listOrders (Orders/Listing), and the
--                     routes (Orders/Controller)
--   Stock             the loop over the items of an order that changes rows of the inventory
--   Worker            src/worker/main.ts: handleOrderMessage, handlePaymentMessage;
--                     Worker/Consumer: the consumer of the queue and isAlreadyProcessed
--   Outbox            src/worker/main.ts: dispatchOutbox
--   Inventory         src/interfaces/inventory: createAdjustment; the listings (Inventory/Listing)
--   Guards            src/shared/auth: TenantGuard, PermissionsGuard, AbacGuard
--   Auth              src/interfaces/auth: the tokens; the strategy and its keys (Auth/Strategy); what
--                     a token lets its holder do (Auth/Session), and who gets one (Auth/Login)
--   System            the routes of the orders and the two consumers on one database; the life of an
--                     order (System/Lifecycle) and what holds after any run (System/Runs)
--   RateLimit         src/infrastructure/redis/redis.service.ts: the token bucket
--   Gate              src/main.ts: the onRequest hook, with getChaosConfig
--   Webhooks          src/worker/webhook-dispatcher.ts and src/interfaces/webhooks (its own processing
--                     in Webhooks/Service, its routes in Webhooks/Controller)
--   Events            src/interfaces/events/events.service.ts: the connected clients
--   Connection        src/worker/main.ts: connectRabbitMQ
--   Lifetime          src/worker/main.ts: main, setupChannelsAndConsumers, reconnect,
--                     gracefulShutdown
--   Csv               parseCsv of src/interfaces/import; src/interfaces/export (Csv/Export)
--   Import            src/interfaces/import: parseRows and parseOrdersCsv (Import/Parse), and the
--                     imports of products, of stock and of orders (a child each)
--   Queries, Maps, Ranking, Sales
--                     the queries on rows, the `Map` of the runtime, sort and slice, and the rows of
--                     orders and items, which the reports share
--   Pagination        src/shared/pagination/cursor.ts and the pages of a listing
--   Products, Sorting src/interfaces/products (its routes in Products/Controller), src/shared/sorting
--   Recommendation    src/interfaces/ai/recommendation.service.ts
--   Search            src/interfaces/ai/nlp-search.service.ts, after the regular expressions
--   TenantsProxy      src/interfaces/tenants-proxy
--   Audit             AuditService.query, src/interfaces/audit, and cleanupOldAuditLogs of the worker
--   Problems          src/shared/filters and src/shared/exceptions
--   Contracts         src/shared/events/schema-validator.ts, and the events of the program against it
--                     (Contracts/Outbox)
--   CircuitBreaker    src/infrastructure/circuit-breaker
--   Analytics         src/interfaces/analytics/analytics.service.ts; its forecast is a child
--
-- An asynchronous function is a function from the state to a result and a state; the calls of one
-- operation are not interleaved with those of another, except where a theorem quantifies over the
-- state in between (the outbox, the consumer, the cancellation). Money is counted in cents, instants
-- in seconds or milliseconds as the code does; quantities of the inventory are signed. No loop
-- of the code runs on fuel, but for the digits of a printed number, which has more than it needs
-- (Base/Decimal): each recurs on the list it goes through, and the endless loops of the
-- worker are lists of rounds; a client that follows cursors asks for at most one page more than there
-- are rows.
--
-- Not modelled: the orders over time of the analytics, which rest on the calendar of the runtime, the
-- regular expressions of the search, whose matches are given, log lines, the configuration of packages,
-- HTTP and AMQP themselves, the content of audit details, the exports as JSON, the static documents of
-- src/interfaces/ai/ai-docs.service.ts, the seed of the database, the counters' registration, logging
-- and tracing, and the shutdown of the API. Runs in which Redis or the database does not answer are left
-- out, except in the removal of old audit entries by the worker. The columns of quantities are 32-bit
-- integers: the limit, and the key to the table of tenants, are a parameter in the adjustments and the
-- import of stock, and are left out elsewhere. The doubles of the forecast are a parameter with the laws
-- that are used of them; elsewhere, in the rate limit, the rankings and the anomalies, exact arithmetic
-- stands for them.
pub mod Base
pub mod Schema
pub mod Database
pub mod Pagination
pub mod Products
pub mod Sorting
pub mod Queries
pub mod Maps
pub mod Ranking
pub mod World
pub mod Services
pub mod Orders
pub mod Stock
pub mod Worker
pub mod Outbox
pub mod Import
pub mod Inventory
pub mod Csv
pub mod Guards
pub mod Webhooks
pub mod RateLimit
pub mod Gate
pub mod Events
pub mod Connection
pub mod Sales
pub mod Recommendation
pub mod Search
pub mod Analytics
pub mod Auth
pub mod System
pub mod TenantsProxy
pub mod CircuitBreaker
pub mod Audit
pub mod Problems
pub mod Contracts
pub mod Lifetime
