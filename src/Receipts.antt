-- ===== src/Receipts.antt =====
-- receipts/: the messages of the work queue and their delivery, the reservations of the intake, the
-- attempts at a receipt, duplicate receipts, the checks of allocations, and archived sources.
pub mod Message
pub mod Delivery
pub mod Intake
pub mod Backlog
pub mod Duplicates
pub mod Review
pub mod Allocation
pub mod Sources
