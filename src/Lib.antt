-- ===== src/Lib.antt =====
-- A model of CaseCellShop, a shop for phone cases: an API that takes orders, an outbox worker that hands
-- accepted orders to a queue, an order worker that has the ERP bill them, a reconciliation worker that
-- brings catalogue and orders in line with the ERP, and the simulated ERP.
--
-- How the parts interact. `checkout` (apps/api/src/checkout/checkout.service.ts) reserves stock and records
-- an order, an outbox event and an idempotency key in one transaction, and then deletes the ordered
-- products' cards in Redis. `publishPending` (apps/outbox-worker/src/outbox.publisher.ts) sends pending
-- events to RabbitMQ. `processWithRetry` (apps/order-worker/src/billing.consumer.ts) calls the ERP, marks
-- the order, and sends a message that failed to the retry queue, or after the fourth attempt to the
-- dead-letter queue. `reconcileOrders` and `syncCatalog`
-- (apps/reconciliation-worker/src/reconciliation.runner.ts) ask the ERP for invoices and products.
--
-- Files and the code they model:
-- - Base, Action: helpers; a service call is an action that reads and writes a state and returns or throws.
-- - Store: the tables of prisma/schema.prisma. World: the state of the API's process, `transaction`.
-- - Observability: Metrics, Context and Trace, of libs/observability/src/metrics.service.ts,
--   request-context.service.ts and trace.service.ts; Http, the middleware, the interceptor and the error filter
--   of the same directory, in the order in which Nest runs them.
-- - Cache: Entry and Service, of libs/cache/src/cache.service.ts.
-- - Products, of apps/api/src/products/products.service.ts: Cards (`invalidateAvailability`, `cacheProductCard`),
--   Query (`normalizeQuery`, `buildProductsQueryCacheKey`), Fetch (`fetchProducts`, `buildOrderBy`), Hydration
--   (`hydrateProducts` and its helpers), Listing (`listProducts`, `getProductById`).
-- - Api/Controllers: the handlers of apps/api/src/products/products.controller.ts,
--   checkout/checkout.controller.ts and orders/orders.controller.ts.
-- - Checkout: Request (validation and normal form), Steps and Steps/Decisions (the transaction's callback,
--   one function per statement; both copies in the source, under a span and without, are the same
--   steps), Retry (`runCheckoutTransactionWithRetry`), Service (`checkout`).
-- - Erp: Service (apps/fake-erp/src/erp), Clients (`billOrder`, `getBillingStatus`, `getProducts` of
--   erp.client.ts and erp-catalog.client.ts), CatalogData (prisma/catalog-data.ts).
-- - Queue/Broker: libs/queue/src/rabbit.service.ts. Plant: the state that the workers share.
-- - Outbox/Publisher, Billing/Consumer, Reconciliation/Orders, Reconciliation/Catalog: the workers.
-- - System: the turns of all the services, in any order.
-- - Tests: the shop of the examples, runs, and instances of the results.
-- Any other child module of these, such as Checkout/Steps/Stock, holds lemmas and results about its parent.
--
-- What stands for code outside the repository. `Platform` has the ids of the database, `randomUUID`,
-- the hash of the items, `localeCompare` and the order of `sort`, as arbitrary functions, and whether the
-- database fails the read of the catalogue's version that a checkout makes after its commit; one result
-- assumes that the order of `sort` compares any two texts, transitively. `Browsing` has
-- what the listing of products takes: `trim` and `toLowerCase`, the database's comparisons and its `updatedAt`,
-- the hash of a lock's key, the random waits, what other processes make of Redis during one, and whether the
-- database fails the read of the version or the query for products. `Nest` has the texts of Nest's errors. The
-- tables keep the unique keys that the services rely on by the checks written out at each insertion. The
-- transaction of a checkout runs alone, since it is serializable and takes advisory locks: what another one may cause is that
-- its commit is refused with P2034, which the list `conflicts` decides. The transaction in which the catalogue
-- sync writes one product has no isolation level and takes no lock; it is modelled on its own, and nothing is
-- said of a checkout at the same time. Each command to Redis, statement of a worker, call of RabbitMQ and
-- request to the ERP may fail, and a message that a channel has taken may be lost, as lists of the state
-- decide; every result holds for all such lists unless it says otherwise.
--
-- Bounds and fuel. Numbers are natural numbers without the 32-bit bound of the columns. The retry loop has
-- the four attempts of the source as its fuel, which is enough since its fourth attempt always ends it; the
-- decimal digits of a number have the number and one as their fuel, which is more than it has digits; the large
-- catalogue is recursion on its size, and all other loops are recursion on a list.
--
-- Not modelled: log lines, time stamps, the expiry of Redis keys, pages and sizes that are fractions or
-- infinite, measured durations, what a transaction of the catalogue sync and one of a checkout do to each other, the
-- parsing of requests by Nest, the OpenAPI texts, start-up and timers of the workers, seeds.
pub mod Base
pub mod Action
pub mod Store
pub mod Cache
pub mod Observability
pub mod World
pub mod Erp
pub mod Queue
pub mod Plant
pub mod Outbox
pub mod Billing
pub mod Reconciliation
pub mod Products
pub mod Api
pub mod Checkout
pub mod System
pub mod Tests
