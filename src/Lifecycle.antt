-- ===== src/Lifecycle.antt =====
-- The lifecycle of a model across the handlers, the worker and the reconcilers: one step relation on
-- the tables (`Steps`), the invariant (`Invariant`) and its proof, operation by operation.
mod Invariant
mod Steps
pub mod Worker
pub mod Handlers
pub mod Reachable
pub use Invariant.*
pub use Steps.*
