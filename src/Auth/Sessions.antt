-- ===== src/Auth/Sessions.antt =====
-- Runs of the handlers, and what they do to the accounts and to the sessions that are open.
pub mod Steps
pub mod Effects
pub mod Unique
pub mod Epochs
pub mod Eviction
pub mod Entry
pub mod Consent
