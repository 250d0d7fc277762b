-- ===== src/Lib.antt =====
-- Verification of the fintech payments data platform.
--
-- The platform moves payment data into a Bronze and a Silver layer of immutable objects. A Kafka
-- consumer groups change events into micro-batches, uploads each one and then commits its offsets; a
-- batch service ingests settlement files; a Silver processor normalizes both. Each of the three keeps
-- its progress in a SQLite manifest, and all write through the object storage. Airflow tasks drive
-- them and judge their results by quality gates.
--
-- Parts, and the code that each models (paths from the repository's root):
-- Prelude: tests on numbers and texts, lists, dicts (Prelude/Dict), SQL rows (Prelude/Rows), and
--   actions that may raise (Prelude/Outcome), in which the state comes back beside an exception.
-- Cdc/Models, Cdc/Models/Batch: src/ingestion/cdc_consumer/models.py, with build_batch.
-- Cdc/Batching: src/ingestion/cdc_consumer/batching.py, every method of PartitionBatcher. Spec
--   states a queue per partition, Flush, Add, Empties and Session relate the code to it.
-- Cdc/Manifest, Cdc/Manifest/Methods: src/ingestion/cdc_consumer/manifest.py, the SQLite table as
--   the list of its rows and every method as an action on it. Progress says how the table may change,
--   Safe and History show it of the methods, Results and Registration say what the methods return.
-- Cdc/Consumer: src/ingestion/cdc_consumer/consumer.py, the loop over the batcher. An iteration is a
--   turn: the signals, rebalances and messages are a list of turns, which the loop recurses on; a list
--   that ends before the loop does is an error of its own. Rules and Steps reason about the steps,
--   Runs about a run.
-- Cdc/Envelope: src/ingestion/cdc_consumer/envelope.py, with the exceptions that escape it as errors.
-- Cdc/Retry: src/ingestion/cdc_consumer/retry.py.
-- Cdc/Storage, Cdc/Storage/Keys: src/ingestion/cdc_consumer/storage.py, over a storage backend.
-- Cdc/Recovery: src/ingestion/cdc_consumer/recovery.py, the batch processor, over the manifest, the
--   object store and the retries. Triples has rules to reason about its steps, Steps, Calls, World and
--   Upload apply them to its calls, Safety and Restarts to process and to sequences of calls.
-- Settlement/Models, Settlement/Manifest: src/ingestion/batch/models.py and manifest.py.
-- Settlement/Contracts, Settlement/Decimals, Settlement/Validation, Settlement/Files:
--   src/ingestion/batch/contracts.py (records and lookups) and validation.py: a row, whose issues are
--   the state of its checks, and a file.
-- Silver/Models, Silver/Deduplication, Silver/References, Silver/Manifest with its Queries:
--   src/processing/silver/models.py, deduplication.py, references.py and manifest.py.
-- Storage, Storage/Local: src/common/storage.py, the local backend, with what other writers do
--   at each moment of a write as a parameter; a stat, of a file and its sidecar, is one look.
-- Orchestration/Models, Orchestration/Quality: src/orchestration/models.py and quality.py.
--
-- Code outside the repository is a parameter: SHA-256 and UUIDs, the JSON of a sidecar file, path
-- arithmetic, floats, the sleeper and the operation that is retried. SQLite is taken at its documented
-- word: a session commits whole or rolls back, a statement sees the rows in the order of insertion
-- unless it orders them, and constraints raise. Kafka partitions and offsets are natural numbers.
-- An instant is a number of microseconds, or the stored text where rows are ordered by it; the
-- flush interval, a float of seconds in the code, is a whole number of microseconds too.
--
-- The loops are structural recursion, also the one of retry_call, which recurses on the attempts that
-- are left; only the digits of str take fuel, n + 1 for n, which is more than its number of digits.
--
-- Not modelled: the quarantine of src/ingestion/cdc_consumer; the loading of contracts and the service
-- of src/ingestion/batch; the normalizers
-- and the processor of src/processing/silver; the MinIO backend and list_objects of
-- src/common/storage.py; the control store of src/orchestration. Left out: settings, command lines,
-- generators, the management of the connector, Airflow's declarations and the portal, which hold wiring
-- and calls of external services.
pub mod Cdc
pub mod Orchestration
pub mod Prelude
pub mod Settlement
pub mod Silver
pub mod Storage
