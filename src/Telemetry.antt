-- ===== src/Telemetry.antt =====
-- app/services/client_telemetry.py and app/services/retention.py: the facts that the SDK ships, the
-- ledger of batches, and the purge of both.
mod Batch
mod Ingest
mod Purge
pub mod Refusals
pub mod Counts
pub mod Ledger
pub mod Replay
unfoldable pub use Batch.*
unfoldable pub use Ingest.*
unfoldable pub use Purge.*
