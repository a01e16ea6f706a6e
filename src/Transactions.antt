-- ===== src/Transactions.antt =====
-- The transactions package: bank transactions beside canonical expenses.
pub mod Matching
pub mod Ownership
pub mod Enrichment
pub mod Allocations
