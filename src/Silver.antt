-- ===== src/Silver.antt =====
-- Bronze-to-Silver processing, src/processing/silver.
pub mod Models
pub mod Deduplication
pub mod Manifest
pub mod References
mod Tests
