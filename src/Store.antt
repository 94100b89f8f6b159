-- ===== src/Store.antt =====
-- app/dbmodels.py: the tables that the handlers, the worker and the monitor share, and the queries
-- and updates that SQLModel offers on them.
mod Rows
mod Facts
mod Tables
mod Table
mod Time
pub use Rows.*
pub use Facts.*
pub use Tables.*
pub use Table.*
pub use Time.*
