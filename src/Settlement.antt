-- ===== src/Settlement.antt =====
-- src/ingestion/batch: the ingestion of settlement files.
pub mod Models
pub mod Contracts
pub mod Decimals
pub mod Validation
pub mod Files
pub mod Manifest
mod Tests
