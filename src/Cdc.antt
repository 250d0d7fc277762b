-- ===== src/Cdc.antt =====
-- The CDC consumer, src/ingestion/cdc_consumer: Kafka messages become micro-batches of one
-- topic-partition, whose lifecycle a control table records.
pub mod Models
pub mod Batching
pub mod Manifest
pub mod Retry
pub mod Storage
pub mod Recovery
pub mod Consumer
pub mod Envelope
mod Tests
mod LifecycleTests
