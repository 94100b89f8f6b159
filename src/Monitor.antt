-- ===== src/Monitor.antt =====
-- app/services/drift_monitor.py and app/services/fleet.py: live metrics, the aggregates of a minute,
-- alerts with a cooldown, and the health of a workspace.
mod Alerts
mod Rollups
mod Pass
pub mod Cooldown
pub mod Fleet
unfoldable pub use Alerts.*
unfoldable pub use Rollups.*
unfoldable pub use Pass.*
