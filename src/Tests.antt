-- ===== src/Tests.antt =====
-- Concrete inputs, and the theorems at them.
mod Fixtures
mod Research
mod Product
mod Telemetry
mod Graph
mod Accounts
mod Architecture
