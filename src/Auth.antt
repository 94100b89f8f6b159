-- ===== src/Auth.antt =====
-- app/auth and app/routers/auth.py: accounts, the passwords and tokens that open them, and the
-- handlers. The table `users` is a list of its own, since no other modelled operation reads it.
pub mod Accounts
pub mod Tokens
pub mod Handlers
pub mod Google
pub mod Sessions
