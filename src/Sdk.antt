-- ===== src/Sdk.antt =====
-- clients/python/astra_sdk/telemetry.py and _http.py: the reporter of the SDK and its session.
mod Queues
mod Spool
mod Session
pub mod Bounds
pub mod Retries
pub mod Cap
pub mod Delivery
mod Passes
pub mod Taken
pub mod Runs
unfoldable pub use Queues.*
unfoldable pub use Spool.*
unfoldable pub use Session.*
