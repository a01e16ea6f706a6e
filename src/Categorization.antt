-- ===== src/Categorization.antt =====
-- The categorization package.
pub mod Tables
pub mod Logic
pub mod Pipeline
pub mod Processing
pub mod Store
