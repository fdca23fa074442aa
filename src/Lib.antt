-- ===== src/Lib.antt =====
-- Verification library of the Achichiz back end: the pure modules on which the shop's money, orders
-- and stock depend, and what their functions guarantee.
--
-- The parts, and the files of the repository that they model:
--   Money, Money/Allocate: src/lib/money.ts (assertPaise, sum, applyBasisPoints, allocate).
--   Pricing: src/modules/checkout/checkout.pricing.ts. Tax is splitInclusiveTax, Shipping is
--     computeShipping and roundOffFor, Coupon is evaluateCoupon, Cart is priceCart and
--     assertInvariants. The cart calls the coupon, allocates the discount over the lines with
--     Money.Allocate, splits the tax of each line and adds shipping and round-off.
--   Orders: Customer and Tracking are src/modules/orders/orders.state.ts, Staff is
--     src/modules/admin-orders/admin-orders.state.ts, and Lifecycle puts the two machines and the
--     refunds of src/modules/payments/payments.service.ts together as steps of one order. Requests is
--     assertMayRefund, and the status on which transitionOrder and cancelOrder decide, of
--     src/modules/admin-orders/admin-orders.service.ts.
--   Rbac: src/lib/rbac-matrix.ts (permissionMatrix, permissionsForRole).
--   Stock: src/modules/admin-inventory/admin-inventory.stock.ts; Stock/Reorder is its reorder formula.
--   Stock/Ledger: the writes of src/modules/admin-inventory/admin-inventory.repository.ts, and adjust,
--     bulkAdjust (Bulk), createReservation and releaseReservation of admin-inventory.service.ts beside
--     it, over a store of levels, movements and reservations. Invariant is what the store keeps,
--     Operations, Holds, Release and Batches are about one operation each, Histories about any sequence.
--   Payments: the tables of src/db/schema/payments.ts, the queries of
--     src/modules/payments/payments.repository.ts, and of src/modules/payments/payments.service.ts
--     applyPaymentCaptured and applyPaymentFailed (Captures), refundOrder, applyRefundProcessed and
--     applyRefundFailed (Refunds). Balance compares orders with their captured rows. Webhooks is the
--     dispatch of src/modules/webhooks/webhooks.service.ts, Redelivery is about an event that comes again
--     after others.
--   Planning: src/modules/admin-bulk-orders/admin-bulk-orders.planning.ts; Demand is aggregateDemand, the
--     module itself allocateDemand and assertAllocationBalances, Covered what holds of them, Procurement
--     is buildProcurementPlan.
--   StockCount: src/modules/admin-stock-counts/admin-stock-counts.state.ts; Variance is its arithmetic,
--     which uses the stock positions of Stock.
--   Transfer: src/modules/admin-warehousing/admin-warehousing.state.ts; Locations is its location tree.
--   Transfer/Service: createTransfer, approveTransfer, dispatchTransfer, receiveTransfer and
--     cancelTransfer of src/modules/admin-warehousing/admin-warehousing.service.ts, with the writes of
--     admin-warehousing.repository.ts beside it. Levels is about one write, Dispatch and Receive about
--     what the two stock-moving operations change, Covered about when a dispatch succeeds, Journey about
--     both in a row.
--   Auth: decideRefresh of src/modules/auth/refresh-token.ts, and issueSession, refresh, logout and
--     logoutEverywhere of src/modules/auth/auth.service.ts, with the writes of auth.repository.ts,
--     session-store.ts and refresh-replay-store.ts beside it. Rows is about what any event keeps of the
--     rows, Once about a token, Family about a session.
--   Production: src/modules/admin-production/admin-production.state.ts.
--   Bom: src/modules/admin-production/admin-production.bom.ts (explodeBom, directRequirements). Totals
--     compares the amounts with the routes of the graph, Depth is about loops, Success about the bills
--     that are exploded, Rounding about what is picked. The recursion is on the levels that the depth
--     limit leaves; with none left the code throws, so the count is not fuel.
--   Purchasing: src/modules/admin-purchasing/admin-purchasing.state.ts (Orders and Returns). Sending is
--     sendPurchaseOrder and cancelPurchaseOrder of admin-purchasing.service.ts beside it, over the levels
--     of Transfer/Service; Expected is about their loops, Cancelled about both in a row.
--   Bundles: src/modules/admin-bundles/admin-bundles.availability.ts; Savings is bundleSavingsPaise.
--   Barcodes: src/modules/admin-barcodes/admin-barcodes.ean13.ts; Mint is mintDistinctEan13.
--   Workflow: the interface that the four document machines fill, with what holds of each.
--   Prelude: shared names, tests, results, lists, integers and sorting.
--   Tests: concrete inputs.
-- The enumerations of statuses are those of src/db/schema.
--
-- How the code is read. A camelCase name becomes its snake_case form. A function that throws returns a
-- Result whose error is the code of the thrown error, with its context where that decides something;
-- the texts of messages, and the `sideEffects` that a console shows, are left out. An amount or a
-- quantity that the code keeps at 0 or above is a natural number, one that can be negative is a ℤ. A
-- UUID is the number that it spells, a date its milliseconds, a path the list of its code units.
-- Quotients that the code computes in floating point (`total * w / weightTotal` in allocate, the
-- arguments of Math.round) are exact here, so what is shown of them is shown of exact arithmetic; the
-- doubles of allocate can be a paisa off for shares above about 2^52 paise.
-- Number.isSafeInteger is a bound at 2^53 - 1 on what the code checks; sums and products in between are
-- not bounded. A loop is a structural recursion on its list or on the amount that is left to hand out,
-- so that no fuel is needed. A table is a list of rows, newest first, or a function of the key; a
-- transaction that throws leaves the store as it was. Two requests are modelled one after the other: a
-- row that is read under its lock is the row as it is. The refresh of a session takes no lock: it is cut
-- between its reads and its write.
--
-- Not modelled: the database, its locks and triggers, HTTP, sign-in and sign-up and the calls of the
-- payment gateway but for its answer to a refund, which is a parameter; sha256 and the random tokens,
-- which are parameters; the queries and reports of the services; carts, checkout and orders as
-- database transactions; the receipt of purchased goods; the
-- claim of a webhook event; the conversions and formats of
-- src/lib/money.ts that only print.
pub mod Prelude
pub mod Money
pub mod Payments
pub mod Planning
pub mod Pricing
pub mod Workflow
pub mod Production
pub mod Transfer
pub mod StockCount
pub mod Purchasing
pub mod Stock
pub mod Rbac
pub mod Orders
pub mod Bundles
pub mod Barcodes
pub mod Bom
pub mod Auth
pub mod Tests
