-- ===== src/Aggregates.antt =====
-- app/services/telemetry_agg.py: what the dashboard shows of the events of a model.
mod Events
mod Buckets
mod Live
pub mod Totals
unfoldable pub use Events.*
unfoldable pub use Buckets.*
unfoldable pub use Live.*
