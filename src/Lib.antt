-- ===== src/Lib.antt =====
-- The order service of QuickBite: orders, their payment, their delivery and the money they move.
--
-- The program has one module per area under app/, each with entities (rows), repositories (statements),
-- and services (handlers). Handlers share a sharded SQL database, Redis, a web socket, and the service
-- core, which knows branches, products, addresses and stock. A customer places an order (placeOrder),
-- pays online (initOnlinePayment, and the provider's webhook) or in cash; the restaurant moves it along
-- (updateStatus); the worker offers it to agents (tryAssign), one of them claims it (claim), picks it up
-- and delivers it (transition, settleDelivered), which books the money; payouts take it out of the
-- restaurant's balance (recordPayout). Domain events are written to an outbox in the same transaction.
--
-- Files, and the code that each is about:
--   Prelude           shared names, tests, lists, integers, texts, and tables as lists of rows
--   Store             the state, errors, actions and transactions that handlers are made of
--   Order/Enums, Order/Entity, Order/Repo      app/order/enums.ts, entity/, repository/
--   Order/Status      app/order/service/order-status.service.ts, with its diagram and its laws
--   Order/Access, Order/Service                access rules and updateStatus of
--                     app/order/service/order.service.ts
--   Order/Core, Order/Drafts, Order/Place      placeOrder of the same file, with what it reads of core
--                     (lib/core-client), pkg/utils/money.ts and lib/sharding/regions.ts
--   Payment/Entity, Payment/Repo, Payment/Ledger   app/payment/entity, repository/
--   Payment/Service, Payment/Webhook           payment.service.ts and kashier-webhook.service.ts
--   Finance           app/finance: balances and payouts
--   Agent             app/agent: earnings, presence, the steps of a delivery, and its settlement
--   Assignment        app/assignment: offers and claims
--   Events            lib/events: event types, payloads, the inserts into the outbox, and its drain; the
--                     consumer of lib/core-events
--   Auth              lib/auth/rbac.ts and lib/rbac: the guards of the routes, and permissions
--   Jobs              lib/jobs/archival.worker.ts: the sweep of prior years into the archive
--   Http              lib/http/pagination: pages behind a cursor, and filters
--   Order/CoreCache   lib/core-client/branch.client.ts and core-data-cache.service.ts: core's data in Redis
--   Order/Response, Order/Reads                order.response.dto.ts, and getOrder and the lists of
--                     order.service.ts
--   Tests             runs on small data
--
-- How the code is modelled. A handler is an action: a function from the world (tables, Redis keys,
-- notices sent, stock calls) to a result and a world, in a do block that follows the source's awaits. A
-- row is its entity, and a table the list of its rows from the oldest on. A transaction restores the
-- tables when its body throws or its commit is lost. Function names are those of the source in
-- snake_case. A number of the source is a natural number, an amount one of minor units; a balance and
-- its changes are integers, and a coordinate an integer of a small unit. Numbers are not bounded, where
-- the source has doubles and the tables have 32 and 64 bits. The loops of the modelled code run over
-- lists, but for the archival's loop over the batches of a table: it has one turn more than the table
-- has rows, which is enough since a turn that is not the last deletes a row.
--
-- What is outside the repository is an argument: the clock, the numbers of the sequences and whether a
-- commit goes through (Env), what core and the payment provider answer (Answers), the radius search of
-- Redis, the check of a webhook's signature, and JSON.parse. A Redis key that has expired is an absent
-- key. Handlers run one after another; where two requests race, the statements that decide the race
-- (the conditional updates, the unique keys and SET NX) are single steps here as they are there.
--
-- Calls that a handler makes outside its transaction and that can fail have an outcome each in Env: the
-- insert and the stamps of a webhook's event, the release of the lock of a claim that failed, and what
-- claims and settlements ask of Redis after their commit. The other commands of Redis are taken to succeed, and so are the statements outside
-- transactions of other handlers. The tables are those of the hot cluster, from which the archival
-- takes rows of prior years: a key is known as long as its row stands there.
--
-- The archival and the drain have environments of their own, in which every statement, message and
-- reading of the clock has its own outcome, by its number in the run; the archival's says also which
-- rows of a table have the same value under a unique key other than the id (src/migrations). A sorted list is sorted by
-- insertion; rows with equal keys come in an order that no theorem speaks of.
--
-- Not modelled: controllers, routes, wiring, schedules, configuration, logging and the clients of
-- libraries, which pass values on; the lists of agents' tasks and earnings and of payouts; the
-- check of tokens, the idempotency and response caches, and the HTTP client of core with its retries.
pub mod Prelude
pub mod Order
pub mod Payment
pub mod Finance
pub mod Jobs
pub mod Auth
pub mod Http
pub mod Agent
pub mod Events
pub mod Store
pub mod Assignment
pub mod Tests
