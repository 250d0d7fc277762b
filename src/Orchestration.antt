-- ===== src/Orchestration.antt =====
-- src/orchestration: the state that the DAG tasks share, and the quality gates.
pub mod Models
pub mod Quality
mod Tests
