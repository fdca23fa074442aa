-- ===== src/Tests.antt =====
-- Concrete inputs: one for each of the theorems that have hypotheses or variables.
mod BomTests
mod PricingTests
mod OrderTests
mod StockTests
mod LedgerTests
mod PaymentTests
mod PlanningTests
mod TransferTests
mod AuthTests
mod SupplyTests
